-- ===== src/Persistence/Crash/Toward.antt =====
-- Progress towards the final files: each path keeps its file or takes its final one.
use governed_ai_dev_team_fra.Common.{String, some, ◌≡◌, refl, ◌⊎◌, inl, arith, eq_iff, string_eq}
use governed_ai_dev_team_fra.Common.Dict.{lookup, put, lookup-put}
use governed_ai_dev_team_fra.Persistence.Transaction.{Files}

module _ (final : Files) where
  abbrev pub Toward : Files → Files → Type 0
  Toward files files' =
      (path : String)
      → (lookup path files' ≡ lookup path files) ⊎ (lookup path files' ≡ lookup path final)

  pub Toward-refl : (files : Files) → Toward files files
  Toward-refl files path = inl refl

  pub Toward-trans : (a b c : Files) → Toward a b → Toward b c → Toward a c
  Toward-trans a b c ab bc path = ground (arith, ab path, bc path)

  pub Toward-put :
      (path content : String) (files : Files)
      → lookup path final ≡ some content
      → Toward files (put path content files)
  Toward-put path content files at p =
      ground (arith, lookup-put path p content files, eq_iff path p)

  -- What is final stays final.
  pub Toward-final :
      (a b : Files) (path : String)
      → Toward a b
      → lookup path a ≡ lookup path final
      → lookup path b ≡ lookup path final
  Toward-final a b path ab at = ground (arith, ab path)
