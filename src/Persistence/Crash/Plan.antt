-- ===== src/Persistence/Crash/Plan.antt =====
-- What planning makes of a transaction, and the files that it aims at.
use governed_ai_dev_team_fra.Common.{
  String, false, none, some, List, [], ◌∷◌, ◌++◌, ◌≡◌, ◌≢◌, refl, ◌∙◌, elem, All, map, arith,
  eq_iff, eq_refl, string_eq,
}
use governed_ai_dev_team_fra.Common.Dict.{lookup, put, lookup-put}
use governed_ai_dev_team_fra.Persistence.Transaction.{
  Files, PlannedWrite, Transaction, Hashing, hash_of,
}

-- No path is written twice.
abbrev pub IsDistinct : List PlannedWrite → Type 0
IsDistinct [] = Unit
IsDistinct (w ∷ ws) = All (λ v. v.relative_path ≢ w.relative_path) ws × IsDistinct ws

-- The transaction was planned over these files: each write carries the hash of the file that it
-- replaces, each domain event is a new file, and no path is planned twice, which the planning calls do
-- not check.
pub record IsPlanned (h : Hashing) (files : Files) (t : Transaction) : Type 0 where
  pub before : All (λ w. w.before_hash ≡ hash_of h (lookup w.relative_path files)) t.planned
  pub new_events : All (λ w. lookup w.relative_path files ≡ none) t.planned_domain_events
  pub distinct : IsDistinct (t.planned ++ t.planned_domain_events)

-- The files once every write has been made.
unfoldable pub apply_all : List PlannedWrite → Files → Files
apply_all [] files = files
apply_all (w ∷ ws) files = apply_all ws (put w.relative_path w.content files)

lookup-apply_all_other :
    (path : String) (ws : List PlannedWrite) (files : Files)
    → All (λ v. v.relative_path ≢ path) ws
    → lookup path (apply_all ws files) ≡ lookup path files
unfolding apply_all
lookup-apply_all_other path [] files a = refl
lookup-apply_all_other path (w ∷ ws) files a =
    lookup-apply_all_other path ws (put w.relative_path w.content files) a.1
    ∙ ground
        (arith, lookup-put w.relative_path path w.content files, eq_iff w.relative_path path, a.0)

-- Each planned write has its content in the end.
pub lookup-apply_all :
    (ws : List PlannedWrite) (files : Files)
    → IsDistinct ws
    → All (λ w. lookup w.relative_path (apply_all ws files) ≡ some w.content) ws
unfolding apply_all
lookup-apply_all [] files d = tt
lookup-apply_all (w ∷ ws) files d = (
  lookup-apply_all_other w.relative_path ws (put w.relative_path w.content files) d.0
      ∙ ground (
        arith,
        lookup-put w.relative_path w.relative_path w.content files,
        eq_refl w.relative_path,
      ),
  lookup-apply_all ws (put w.relative_path w.content files) d.1,
)

-- A path that is not planned keeps its file.
pub apply_all_unplanned :
    (path : String) (ws : List PlannedWrite) (files : Files)
    → elem path (map (λ w. w.relative_path) ws) ≡ false
    → lookup path (apply_all ws files) ≡ lookup path files
unfolding apply_all
apply_all_unplanned path [] files a = refl
apply_all_unplanned path (w ∷ ws) files a =
    apply_all_unplanned path ws (put w.relative_path w.content files) (ground arith)
    ∙ ground (
      arith,
      lookup-put w.relative_path path w.content files,
      eq_iff w.relative_path path,
      eq_iff path w.relative_path,
    )

pub apply_all-append :
    (xs ys : List PlannedWrite) (files : Files)
    → apply_all ys (apply_all xs files) ≡ apply_all (xs ++ ys) files
unfolding apply_all
apply_all-append [] ys files = refl
apply_all-append (x ∷ xs) ys files = apply_all-append xs ys (put x.relative_path x.content files)
