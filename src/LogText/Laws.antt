-- ===== src/LogText/Laws.antt =====
-- app/constants.py: what `sanitize_for_log` leaves in a text.
use bulk_processing_service.Base.{All, Text, [], ap, arith, false, map, refl, ℕ, ◌∙◌, ◌∷◌, ◌≡◌}
use bulk_processing_service.LogText.{blank, is_control, sanitize_for_log, without_control}

abbrev IsLoggable : ℕ → Type 0
IsLoggable c = is_control c ≡ false

without_control-IsLoggable : (t : Text) → All IsLoggable (without_control t)
unfolding without_control
without_control-IsLoggable [] = tt
without_control-IsLoggable (c ∷ t) = ground (arith, without_control-IsLoggable t)

step_kept : (c : ℕ) (t : Text) → IsLoggable c → sanitize_for_log (c ∷ t) ≡ c ∷ sanitize_for_log t
unfolding sanitize_for_log without_control
step_kept c t e = ground arith

sanitize_kept : (t : Text) → All IsLoggable t → sanitize_for_log t ≡ t
unfolding sanitize_for_log without_control
sanitize_kept [] h = refl
sanitize_kept (c ∷ t) (h, hs) = step_kept c t h ∙ ap (λ u. c ∷ u) (sanitize_kept t hs)

-- A text for the log holds no control character, so no line break, whatever the value; and
-- sanitizing it again changes nothing.
sanitize_for_log-IsLoggable :
    (t : Text)
    → All IsLoggable (sanitize_for_log t)
      × (sanitize_for_log (sanitize_for_log t) ≡ sanitize_for_log t)
unfolding sanitize_for_log
sanitize_for_log-IsLoggable t =
    let clean : All IsLoggable (sanitize_for_log t) =
      without_control-IsLoggable (map (blank 0x0d) (map (blank 0x0a) t)) in
    (clean, sanitize_kept (sanitize_for_log t) clean)
