-- ===== src/Switch/Act.antt =====
-- A step of an operation on the shared state: it fails or returns, and leaves a state either way.
-- `Post` is what holds after it, and the rules follow the program text.
use mathlib.Core.Path.{subst}
use connector.Base.{◌≡◌, Result, ok, err}
use connector.Switch.{World, SwitchError, Kernel, Point}

abbrev pub Act : Type 0 → Type 0
Act A = World → Result SwitchError A × World

abbrev pub then_do :
    {A B : Type 0} → Result SwitchError A × World → (A → Act B) → Result SwitchError B × World
then_do (ok a, w) f = f a w
then_do (err e, w) f = (err e, w)

infixl 5 ◌>>=◌ ◌>>◌
abbrev pub ◌>>=◌ : {A B : Type 0} → Act A → (A → Act B) → Act B
◌>>=◌ m f w = then_do (m w) f

abbrev pub ◌>>◌ : {B : Type 0} → Act (Unit {0}) → Act B → Act B
m >> k = m >>= λ _. k

abbrev pub return : {A : Type 0} → A → Act A
return a w = (ok a, w)

abbrev pub lift : {A : Type 0} → Result SwitchError A → Act A
lift r w = (r, w)

-- Other processes run.
abbrev pub interfere : Kernel → Point → Act (Unit {0})
interfere k p w = (ok tt, k.others p w)

abbrev pub Post :
    {A : Type 0} → (A → World → Type 0) → (World → Type 0) → Result SwitchError A × World → Type 0
Post Q R (ok a, w) = Q a w
Post Q R (err e, w) = R w

pub Post-then :
    {A B : Type 0} (Q : A → World → Type 0) (Q' : B → World → Type 0) (R : World → Type 0)
    (r : Result SwitchError A × World) (f : A → Act B)
    → Post Q R r
    → ((a : A) (w : World) → Q a w → Post Q' R (f a w))
    → Post Q' R (then_do r f)
Post-then Q Q' R (ok a, w) f h k = k a w h
Post-then Q Q' R (err e, w) f h k = h

pub Post-ok :
    {A : Type 0} (Q : A → World → Type 0) (R : World → Type 0) (r : Result SwitchError A × World)
    {a : A} {w : World}
    → r ≡ (ok a, w)
    → Post Q R r
    → Q a w
Post-ok Q R r e h = subst (Post Q R) e h

pub Post-err :
    {A : Type 0} (Q : A → World → Type 0) (R : World → Type 0) (r : Result SwitchError A × World)
    {x : SwitchError} {w : World}
    → r ≡ (err x, w)
    → Post Q R r
    → R w
Post-err Q R r e h = subst (Post Q R) e h

pub Post-map :
    {A : Type 0} (Q Q' : A → World → Type 0) (R R' : World → Type 0)
    (r : Result SwitchError A × World)
    → ((a : A) (w : World) → Q a w → Q' a w)
    → ((w : World) → R w → R' w)
    → Post Q R r
    → Post Q' R' r
Post-map Q Q' R R' (ok a, w) f g h = f a w h
Post-map Q Q' R R' (err e, w) f g h = g w h
