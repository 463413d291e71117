-- ===== src/Storage/Laws.antt =====
-- Laws of reading and writing directories in the storage.
use bulk_processing_service.Base.{Text, ap, arith, nat_eq, some, text_eq, true, ◌≡◌, ◌≢◌}
use bulk_processing_service.Base.Dict.{Dict, get-put, put-put}
use bulk_processing_service.Storage.{
  Action, Error, JobDir, Node, Storage, continue, dir_in, directory, exists, raises, returns,
  set_dir, ◌>>=◌,
}

pub dir_in-set_dir_self :
    (nodes : Dict Text Node) (p : Text) (d : JobDir) → dir_in (set_dir nodes p d) p ≡ some d
unfolding dir_in set_dir
dir_in-set_dir_self nodes p d = ground (arith, get-put nodes p p (directory d))

pub dir_in-set_dir_ne :
    (nodes : Dict Text Node) (p q : Text) (d : JobDir)
    → p ≢ q
    → dir_in (set_dir nodes p d) q ≡ dir_in nodes q
unfolding dir_in set_dir
dir_in-set_dir_ne nodes p q d h = ground (arith, get-put nodes p q (directory d))

pub set_dir-set_dir :
    (nodes : Dict Text Node) (p : Text) (d e : JobDir)
    → set_dir (set_dir nodes p d) p e ≡ set_dir nodes p e
unfolding set_dir
set_dir-set_dir nodes p d e = put-put nodes p (directory d) (directory e)

pub exists-set_dir_self :
    (nodes : Dict Text Node) (p : Text) (d : JobDir) → exists (set_dir nodes p d) p ≡ true
unfolding exists set_dir
exists-set_dir_self nodes p d = ground (arith, get-put nodes p p (directory d))

-- Where a directory is, its path exists.
pub exists_of_dir :
    (nodes : Dict Text Node) (p : Text) (d : JobDir)
    → dir_in nodes p ≡ some d
    → exists nodes p ≡ true
unfolding dir_in exists
exists_of_dir nodes p d h = ground arith

pub ruleset dir_laws = (dir_in-set_dir_self, set_dir-set_dir)

-- A block goes on behind an action that returns, and ends with one that raises.
pub bind_returns :
    {A B : Type 0} (m : Action A) (f : A → Action B) {s t : Storage} {a : A}
    → m s ≡ (returns a, t)
    → (m >>= f) s ≡ f a t
bind_returns m f e = ap (continue f) e

pub bind_raises :
    {A B : Type 0} (m : Action A) (f : A → Action B) {s t : Storage} {e : Error}
    → m s ≡ (raises e, t)
    → (m >>= f) s ≡ (raises e, t)
bind_raises m f e = ap (continue f) e
