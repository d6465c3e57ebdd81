-- ===== src/Shell/Pair.antt =====
-- 2/solution/pair.c. A pointer to a pair may be NULL, and a NULL component is `none` too.
use iu_sysprog.Prelude.{Option, none, some}

module _ {ℓ κ} {A : Type ℓ} {B : Type κ} where
  abbrev pub make_pair : A → B → A × B
  make_pair first second = (first, second)

  abbrev pub fst_pair : Option (A × B) → Option A
  fst_pair none = none
  fst_pair (some p) = some p.0

  abbrev pub snd_pair : Option (A × B) → Option B
  snd_pair none = none
  snd_pair (some p) = some p.1
