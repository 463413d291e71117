-- ===== src/Tests/CoverPage.antt =====
-- Cover pages at concrete inputs.
use bulk_processing_service.Base.{codes, nat_eq, refl, text_eq, ◌≡◌}
use bulk_processing_service.CoverPage.{match_placeholder, replace_all, substitute}
use bulk_processing_service.Paths.{strip_prefix}
use bulk_processing_service.Strings.{is_space, lstrip}

substitute_run :
    replace_all (codes "PAGE_NUMBER") (codes "1") (codes "<p>{{ PAGE_NUMBER }}</p>")
    ≡ codes "<p>1</p>"
unfolding substitute match_placeholder strip_prefix nat_eq lstrip is_space
substitute_run = refl
