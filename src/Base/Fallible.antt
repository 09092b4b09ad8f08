-- ===== src/Base/Fallible.antt =====
-- Fallible results, and fallible code that also changes a state. On an error the state is kept, as
-- in Go, where a failing call has already had its effects.
use mathlib.Core.Path.{◌≡◌, refl}
use mathlib.Core.Logic.{◌≢◌}

pub data Result {ℓ κ} (E : Type ℓ) (A : Type κ) : Type (ℓ ⊔ κ) where
  ok : A → Result E A
  err : E → Result E A

-- What a call leaves: its value, its error, or, for a loop on fuel, `spent`: the fuel ran out.
pub data Flow {ℓ} (E S A : Type ℓ) : Type ℓ where
  done : A → S → Flow E S A
  fail : E → S → Flow E S A
  spent : Flow E S A

-- Go on from the outcome of a call.
abbrev pub after {ℓ} : {E S A B : Type ℓ} → Flow E S A → (A → S → Flow E S B) → Flow E S B
after (done a s) f = f a s
after (fail e s) f = fail e s
after spent f = spent

infixl 5 ◌>>=◌
abbrev pub ◌>>=◌ {ℓ} : {E S A B : Type ℓ} → (S → Flow E S A) → (A → S → Flow E S B) → S → Flow E S B
◌>>=◌ m f s = after (m s) f

-- An error of a callee, wrapped by its caller.
abbrev pub wrap {ℓ} : {E F S A : Type ℓ} → (E → F) → Flow E S A → Flow F S A
wrap f (done a s) = done a s
wrap f (fail e s) = fail (f e) s
wrap f spent = spent

-- A call that ends well had parts that end well.
pub after-done {ℓ} :
    {E S A B : Type ℓ} (m : Flow E S A) (f : A → S → Flow E S B) {b : B} {t : S}
    → after m f ≡ done b t
    → (a : A) × (s : S) × (m ≡ done a s) × (f a s ≡ done b t)
after-done (done a s) f h = (a, s, refl, h)
after-done (fail e s) f h = cc
after-done spent f h = cc

pub wrap-done {ℓ} :
    {E F S A : Type ℓ} (f : E → F) (m : Flow E S A) {a : A} {s : S}
    → wrap f m ≡ done a s
    → m ≡ done a s
wrap-done f (done a s) h = cc
wrap-done f (fail e s) h = cc
wrap-done f spent h = cc

-- A call that returns, well or not.
abbrev pub Returns {ℓ} : {E S A : Type ℓ} → Flow E S A → Type 0
Returns (done a s) = Unit
Returns (fail e s) = Unit
Returns spent = ⊥

pub after-Returns {ℓ} :
    {E S A B : Type ℓ} (m : Flow E S A) (f : A → S → Flow E S B)
    → Returns m
    → ((a : A) (s : S) → Returns (f a s))
    → Returns (after m f)
after-Returns (done a s) f h k = k a s
after-Returns (fail e s) f h k = tt
after-Returns spent f h k = absurd h

pub wrap-Returns {ℓ} :
    {E F S A : Type ℓ} (f : E → F) (m : Flow E S A) → Returns m → Returns (wrap f m)
wrap-Returns f (done a s) h = tt
wrap-Returns f (fail e s) h = tt
wrap-Returns f spent h = h

-- A call that returns and does not end well fails.
pub fails_unless_done {ℓ} :
    {E S A : Type ℓ} (m : Flow E S A)
    → Returns m
    → ((a : A) (s : S) → m ≢ done a s)
    → (e : E) × (s : S) × (m ≡ fail e s)
fails_unless_done (done a s) h k = absurd (k a s refl)
fails_unless_done (fail e s) h k = (e, s, refl)
fails_unless_done spent h k = absurd h

-- What holds of a call that ends well, and of one that fails.
abbrev pub Leads {ℓ} : {E S A : Type ℓ} → (A → S → Type 0) → (E → S → Type 0) → Flow E S A → Type 0
Leads D F (done a s) = D a s
Leads D F (fail e s) = F e s
Leads D F spent = Unit

pub after-Leads {ℓ} :
    {E S A B : Type ℓ} (C : A → S → Type 0) (D : B → S → Type 0) (F : E → S → Type 0)
    (m : Flow E S A) (f : A → S → Flow E S B)
    → Leads C F m
    → ((a : A) (s : S) → C a s → Leads D F (f a s))
    → Leads D F (after m f)
after-Leads C D F (done a s) f h k = k a s h
after-Leads C D F (fail e s) f h k = h
after-Leads C D F spent f h k = tt

pub Leads-mono {ℓ} :
    {E S A : Type ℓ} (C D : A → S → Type 0) (F G : E → S → Type 0) (m : Flow E S A)
    → ((a : A) (s : S) → C a s → D a s)
    → ((e : E) (s : S) → F e s → G e s)
    → Leads C F m
    → Leads D G m
Leads-mono C D F G (done a s) f g h = f a s h
Leads-mono C D F G (fail e s) f g h = g e s h
Leads-mono C D F G spent f g h = tt
