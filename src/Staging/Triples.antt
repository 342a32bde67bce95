-- ===== src/Staging/Triples.antt =====
-- What a step makes of a runtime, in both of its outcomes, and how the steps of a method compose:
-- src/cacheblend_gpt_oss/vllm_compat/v0_19_1/staging.py.
use cacheblend_gpt_oss.Prelude.{◌≡◌, refl, sym, ap, subst, Bool, true, false, ok, raise}
use cacheblend_gpt_oss.Staging.Config.{
  Failure, base_exception, other_exception, staging_error, Outcome, StagingErrorCode, invalid_state,
}
use cacheblend_gpt_oss.Staging.Steps.{
  StagingRuntime, Step, ◌>>=◌, ◌>>◌, try_call, try_step, register_staging, unregister_staging,
  try_staging, refuse_if, modify, get, mark_failed, checked, require_state, same_state,
  StagingState,
}

-- The value and the runtime of a step that returns, or the failure and the runtime of one that raises.
abbrev pub Meets :
    {A : Type 0}
    → (A → StagingRuntime → Type 0)
    → (Failure → StagingRuntime → Type 0)
    → Outcome A × StagingRuntime
    → Type 0
Meets done raised (ok a, s) = done a s
Meets done raised (raise e, s) = raised e s

-- What comes next, behind a step's result.
abbrev pub then_next :
    {A : Type 0} {B : Type 0}
    → (A → Step B)
    → Outcome A × StagingRuntime
    → Outcome B × StagingRuntime
then_next f r = elim r.0 [ ok a ↦ f a r.1 | raise e ↦ (raise e, r.1) ]

Meets-then_next :
    {A : Type 0} {B : Type 0} (r : Outcome A × StagingRuntime) (f : A → Step B)
    (mid : A → StagingRuntime → Type 0) (done : B → StagingRuntime → Type 0)
    (raised : Failure → StagingRuntime → Type 0)
    → Meets mid raised r
    → ((a : A) (t : StagingRuntime) → mid a t → Meets done raised (f a t))
    → Meets done raised (then_next f r)
Meets-then_next (ok a, t) f mid done raised h k = k a t h
Meets-then_next (raise e, t) f mid done raised h k = h

pub Meets-bind :
    {A : Type 0} {B : Type 0} (m : Step A) (f : A → Step B) (mid : A → StagingRuntime → Type 0)
    (done : B → StagingRuntime → Type 0) (raised : Failure → StagingRuntime → Type 0)
    (s : StagingRuntime)
    → Meets mid raised (m s)
    → ((a : A) (t : StagingRuntime) → mid a t → Meets done raised (f a t))
    → Meets done raised ((m >>= f) s)
unfolding ◌>>=◌
Meets-bind m f mid done raised s = Meets-then_next (m s) f mid done raised

-- A step that only looks at the runtime, or changes it in one way, is done at once.
pub Meets-get :
    {B : Type 0} (f : StagingRuntime → Step B) (done : B → StagingRuntime → Type 0)
    (raised : Failure → StagingRuntime → Type 0) (s : StagingRuntime)
    → Meets done raised (f s s)
    → Meets done raised ((get >>= f) s)
unfolding ◌>>=◌
Meets-get f done raised s h = h

pub Meets-modify :
    {B : Type 0} (change : StagingRuntime → StagingRuntime) (k : Step B)
    (done : B → StagingRuntime → Type 0) (raised : Failure → StagingRuntime → Type 0)
    (s : StagingRuntime)
    → Meets done raised (k (change s))
    → Meets done raised ((modify change >> k) s)
unfolding ◌>>=◌ ◌>>◌
Meets-modify change k done raised s h = h

pub Meets->> :
    {B : Type 0} (m : Step (Unit {0})) (k : Step B) (done : B → StagingRuntime → Type 0)
    (raised : Failure → StagingRuntime → Type 0) (s : StagingRuntime)
    → Meets done raised ((m >>= λ _. k) s)
    → Meets done raised ((m >> k) s)
unfolding ◌>>◌
Meets->> m k done raised s h = h

-- A guarded call goes on as the runtime was, or fails: with the mark, unless it was interrupted.
pub Meets-try_call :
    {A B : Type 0} (code : StagingErrorCode) (o : Outcome A) (f : A → Step B)
    (done : B → StagingRuntime → Type 0) (raised : Failure → StagingRuntime → Type 0)
    (s : StagingRuntime)
    → raised base_exception s
    → ((c : StagingErrorCode) → raised (staging_error c) (mark_failed s))
    → ((a : A) → o ≡ ok a → Meets done raised (f a s))
    → Meets done raised ((try_call code o >>= f) s)
unfolding ◌>>=◌
Meets-try_call code (ok a) f done raised s i g k = k a refl
Meets-try_call code (raise base_exception) f done raised s i g k = i
Meets-try_call code (raise other_exception) f done raised s i g k = g code
Meets-try_call code (raise (staging_error c)) f done raised s i g k = g code

-- The request to register: LMCache may hold the buffer behind it in every case.
abbrev pub held : StagingRuntime → StagingRuntime
held s = record s { lmcache_may_hold = true }

pub Meets-register :
    {B : Type 0} (code : StagingErrorCode) (o : Outcome (Unit {0})) (f : Unit {0} → Step B)
    (done : B → StagingRuntime → Type 0) (raised : Failure → StagingRuntime → Type 0)
    (s : StagingRuntime)
    → raised base_exception (held s)
    → ((c : StagingErrorCode) → raised (staging_error c) (mark_failed (held s)))
    → ((a : Unit {0}) → o ≡ ok a → Meets done raised (f a (held s)))
    → Meets done raised ((try_step code (register_staging o) >>= f) s)
unfolding ◌>>=◌
Meets-register code o f done raised s = Meets-try_call code o f done raised (held s)

-- The request to unregister: LMCache gave the buffer up only if it returns.
pub Meets-unregister :
    {B : Type 0} (code : StagingErrorCode) (o : Outcome (Unit {0})) (f : Unit {0} → Step B)
    (done : B → StagingRuntime → Type 0) (raised : Failure → StagingRuntime → Type 0)
    (s : StagingRuntime)
    → (o ≡ raise base_exception → raised base_exception s)
    → ((e : Failure)
        → o ≡ raise e
        → (c : StagingErrorCode) → raised (staging_error c) (mark_failed s))
    → (o ≡ ok tt → Meets done raised (f tt (record s { lmcache_may_hold = false })))
    → Meets done raised ((try_step code (unregister_staging o) >>= f) s)
unfolding ◌>>=◌
Meets-unregister code (ok a) f done raised s i g k = k refl
Meets-unregister code (raise base_exception) f done raised s i g k = i refl
Meets-unregister code (raise other_exception) f done raised s i g k = g other_exception refl code
Meets-unregister code (raise (staging_error c)) f done raised s i g k =
    g (staging_error c) refl code

pub Meets-try_staging :
    {A B : Type 0} (code : StagingErrorCode) (o : Outcome A) (f : A → Step B)
    (done : B → StagingRuntime → Type 0) (raised : Failure → StagingRuntime → Type 0)
    (s : StagingRuntime)
    → raised base_exception s
    → ((c : StagingErrorCode) → raised (staging_error c) (mark_failed s))
    → ((a : A) → o ≡ ok a → Meets done raised (f a s))
    → Meets done raised ((try_staging code o >>= f) s)
unfolding ◌>>=◌
Meets-try_staging code (ok a) f done raised s i g k = k a refl
Meets-try_staging code (raise base_exception) f done raised s i g k = i
Meets-try_staging code (raise other_exception) f done raised s i g k = g code
Meets-try_staging code (raise (staging_error c)) f done raised s i g k = g c

pub Meets-refuse_if :
    {B : Type 0} (b : Bool) (code : StagingErrorCode) (k : Step B)
    (done : B → StagingRuntime → Type 0) (raised : Failure → StagingRuntime → Type 0)
    (s : StagingRuntime)
    → ((c : StagingErrorCode) → raised (staging_error c) (mark_failed s))
    → (b ≡ false → Meets done raised (k s))
    → Meets done raised ((refuse_if b code >> k) s)
unfolding ◌>>=◌ ◌>>◌
Meets-refuse_if true code k done raised s g next = g code
Meets-refuse_if false code k done raised s g next = next refl

-- A test outside every `try` leaves the runtime as it was when it fails.
pub Meets-checked :
    {A B : Type 0} (o : Outcome A) (f : A → Step B) (done : B → StagingRuntime → Type 0)
    (raised : Failure → StagingRuntime → Type 0) (s : StagingRuntime)
    → ((e : Failure) → o ≡ raise e → raised e s)
    → ((a : A) → o ≡ ok a → Meets done raised (f a s))
    → Meets done raised ((checked o >>= f) s)
unfolding ◌>>=◌
Meets-checked (ok a) f done raised s g k = k a refl
Meets-checked (raise e) f done raised s g k = g e refl

pub Meets-refuse_last :
    (b : Bool) (code : StagingErrorCode) (done : Unit {0} → StagingRuntime → Type 0)
    (raised : Failure → StagingRuntime → Type 0) (s : StagingRuntime)
    → ((c : StagingErrorCode) → raised (staging_error c) (mark_failed s))
    → (b ≡ false → done tt s)
    → Meets done raised (refuse_if b code s)
Meets-refuse_last true code done raised s g next = g code
Meets-refuse_last false code done raised s g next = next refl

pub Meets-require_state :
    {B : Type 0} (x : StagingState) (k : Step B) (done : B → StagingRuntime → Type 0)
    (raised : Failure → StagingRuntime → Type 0) (s : StagingRuntime)
    → same_state s.state x ≡ true
    → Meets done raised (k s)
    → Meets done raised ((require_state x >> k) s)
unfolding ◌>>=◌ ◌>>◌
Meets-require_state {B} x k done raised s e h =
    let passed : require_state x s ≡ (ok tt, s) = rw e refl in
    subst (λ r. Meets {A = B} done raised (then_next (λ _. k) r)) (sym passed) h

-- In any other state the method is refused, and leaves the runtime as it was.
pub require_state-refused :
    {B : Type 0} (x : StagingState) (k : Step B) (s : StagingRuntime)
    → same_state s.state x ≡ false
    → (require_state x >> k) s ≡ (raise (staging_error invalid_state), s)
unfolding ◌>>=◌ ◌>>◌
require_state-refused {B} x k s e =
    let stopped : require_state x s ≡ (raise (staging_error invalid_state), s) = rw e refl in
    ap (then_next {B = B} (λ _. k)) stopped
