-- ===== src/Worker/Chain.antt =====
-- Chains of optional values that end with one, as in the decoders of internal/worker/start_journal.go.
use agent_remote_node.Prelude.{Bool, true, false, Option, none, some, ◌≡◌, refl}
use agent_remote_node.Worker.StartDecode.{◌>>=◌, ◌>>◌, require}

pub bind_some :
    {A B : Type 0} (m : Option A) (f : A → Option B) {b : B}
    → (m >>= f) ≡ some b
    → (a : A) × (m ≡ some a) × (f a ≡ some b)
bind_some none f h = cc
bind_some (some a) f h = (a, refl, h)

pub required :
    {B : Type 0} (t : Bool) (m : Option B) {b : B}
    → (require t >> m) ≡ some b
    → (t ≡ true) × (m ≡ some b)
required true m h = (refl, h)
required false m h = cc

pub some_inj : {A : Type 0} {a b : A} → some a ≡ some b → a ≡ b
some_inj h = cc
