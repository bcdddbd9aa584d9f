-- ===== src/Requests/Chains.antt =====
-- What a chain of fallible steps ensures when it is done.
use ovpn_manager.Prelude.{◌≡◌, refl, Bool, true, false, Option, none, some}
use ovpn_manager.Requests.{
  respond, Message, Reply, error, Result, done, failed, ◌>>=◌, ◌>>◌, or_fail, require, answered,
}
use ovpn_manager.Schema.{Tables}

unfoldable pub Ensures {ℓ κ} : {A : Type ℓ} → (A → Type κ) → Result A → Type κ
Ensures Q (done a) = Q a
Ensures Q (failed m) = Unit

pub or_fail-Ensures {ℓ κ μ} :
    {A : Type ℓ} {B : Type κ} (Q : B → Type μ) (m : Message) (o : Option A) (f : A → Result B)
    → ((a : A) → o ≡ some a → Ensures Q (f a))
    → Ensures Q (or_fail m o >>= f)
unfolding Ensures ◌>>=◌ or_fail
or_fail-Ensures Q m none f h = tt
or_fail-Ensures Q m (some a) f h = h a refl

pub require-Ensures {ℓ μ} :
    {B : Type ℓ} (Q : B → Type μ) (m : Message) (b : Bool) (rest : Result B)
    → (b ≡ true → Ensures Q rest)
    → Ensures Q (require m b >> rest)
unfolding Ensures ◌>>◌ require
require-Ensures Q m true rest h = h refl
require-Ensures Q m false rest h = tt

pub done-Ensures {ℓ κ} : {A : Type ℓ} (Q : A → Type κ) (a : A) → Q a → Ensures Q (done a)
unfolding Ensures
done-Ensures Q a h = h

pub answered-some {ℓ} :
    {A : Type ℓ} (b : Bool) (o : Option A) (a : A) → answered b o ≡ some a → o ≡ some a
answered-some true o a e = e
answered-some false o a e = cc

pub respond-Ensures {μ} :
    (Q : Tables × Reply → Type μ) (db : Tables) (r : Result (Tables × Reply))
    → ((m : Message) → Q (db, error m))
    → Ensures Q r
    → Q (respond db r)
unfolding Ensures respond
respond-Ensures Q db (failed m) h e = h m
respond-Ensures Q db (done a) h e = e
