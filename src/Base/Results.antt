-- ===== src/Base/Results.antt =====
-- Errors as values, and actions that read and write a state and may fail.
-- What was written before a failure stays written, so the state comes back beside the error too.
use mathlib.Core.Path.{◌≡◌, refl, ap, fun_ext}
use mathlib.Core.Bool.{Bool, true, false}
use mathlib.Core.List.{List, [], ◌∷◌}
use sgard.Base.Texts.{Text}

-- Go's errors by their cause. The context that `fmt.Errorf` puts in front is not modelled, except
-- for the path or name that tells one error from another.
pub data Error : Type 0 where
  not_exist : Error
  io : Text → Error
  already_tracking : Text → Error
  not_tracking : Text → Error
  no_matching_entries : Error
  only_and_never : Text → Error
  dek_locked : Error
  invalid_hash : Text → Error
  invalid_mode : Text → Error
  repository_exists : Text → Error
  ciphertext_too_short : Error
  decryption_failed : Error
  bad_key : Error
  bad_base64 : Error
  encryption_initialized : Error
  encryption_not_initialized : Error
  prompt_missing : Error
  no_usable_slot : Error
  slot_not_found : Text → Error
  slot_exists : Text → Error
  last_slot : Error
  unknown_slot_type : Text → Error
  device_missing : Error
  kek_too_short : Error
  cannot_diff : Text → Error
  hash_mismatch : Text → Error
  blob_not_found : Text → Error
  server_newer : Error
  unauthenticated : Error
  permission_denied : Error
  bad_signature_format : Error

pub data Result {ℓ} (A : Type ℓ) : Type ℓ where
  ok : A → Result A
  err : Error → Result A

abbrev pub Exec {ℓ} : Type ℓ → Type ℓ → Type ℓ
Exec S A = S → Result A × S

abbrev pub and_then {ℓ κ} : {A : Type ℓ} {B : Type κ} → Result A → (A → Result B) → Result B
and_then (ok a) f = f a
and_then (err e) f = err e

-- os.IsNotExist, and errors.Is by os.ErrNotExist
unfoldable pub is_not_exist : Error → Bool
is_not_exist not_exist = true
is_not_exist e = false

abbrev pub is_ok {ℓ} : {A : Type ℓ} → Result A → Bool
is_ok (ok a) = true
is_ok (err e) = false

module _ {ℓ} {S A : Type ℓ} where
  abbrev pub pure : A → Exec S A
  pure a s = (ok a, s)

  abbrev pub fail : Error → Exec S A
  fail e s = (err e, s)

  abbrev pub lift : Result A → Exec S A
  lift r s = (r, s)

  abbrev pub gets : (S → A) → Exec S A
  gets f s = (ok (f s), s)

module _ {ℓ} {S A B : Type ℓ} where
  abbrev pub continue : Result A → (A → Exec S B) → Exec S B
  continue (ok a) f s = f a s
  continue (err c) f s = (err c, s)

  infixl 10 ◌>>=◌ ◌>>◌
  abbrev pub ◌>>=◌ : Exec S A → (A → Exec S B) → Exec S B
  ◌>>=◌ m f s = let (r, s') = m s in continue r f s'

  abbrev pub ◌>>◌ : Exec S A → Exec S B → Exec S B
  m >> n = m >>= λ _. n

-- `for _, x := range xs { if err := f(x); err != nil { return err } }`
unfoldable pub for_each {ℓ} : {S A : Type ℓ} → List A → (A → Exec S (Unit {ℓ})) → Exec S (Unit {ℓ})
for_each [] f s = (ok tt, s)
for_each (x ∷ xs) f s =
    let (r, s') = f x s in elim r [ ok _ ↦ for_each xs f s' | err e ↦ (err e, s') ]

-- The same loop where the body also changes the element in place, through `&xs[i]`.
update_after {ℓ} :
    {S A : Type ℓ}
    → List A
    → (S → Result (Unit {ℓ}) × List A × S)
    → Result (Unit {ℓ}) × A × S
    → Result (Unit {ℓ}) × List A × S
update_after xs rest (ok _, x, s) = let (r, xs', s') = rest s in (r, x ∷ xs', s')
update_after xs rest (err e, x, s) = (err e, x ∷ xs, s)

unfoldable pub update_each {ℓ} :
    {S A : Type ℓ}
    → (A → S → Result (Unit {ℓ}) × A × S)
    → List A
    → S
    → Result (Unit {ℓ}) × List A × S
unfolding update_after
update_each f [] s = (ok tt, [], s)
update_each f (x ∷ xs) s = update_after xs (update_each f xs) (f x s)

each_after {ℓ} :
    {S A : Type ℓ} (P : S → Type 0) (f : A → Exec S (Unit {ℓ})) (xs : List A)
    (r : Result (Unit {ℓ})) (s : S)
    → P s
    → (P s → P (for_each xs f s).1)
    → P
        (let out : Result (Unit {ℓ}) × S = elim r [ ok _ ↦ for_each xs f s | err e ↦ (err e, s) ] in
          out).1
each_after P f xs (ok _) s h k = k h
each_after P f xs (err e) s h k = h

-- What the body keeps, whether it returns or fails, the loop keeps.
pub for_each_keeps {ℓ} :
    {S A : Type ℓ} (P : S → Type 0) (f : A → Exec S (Unit {ℓ}))
    → ((x : A) (s : S) → P s → P (f x s).1)
    → (xs : List A) (s : S) → P s
    → P (for_each xs f s).1
unfolding for_each
for_each_keeps P f keep [] s h = h
for_each_keeps P f keep (x ∷ xs) s h =
    each_after P f xs (f x s).0 (f x s).1 (keep x s h) (for_each_keeps P f keep xs (f x s).1)

-- Two lists of one length whose elements are related, one by one.
abbrev pub AllPairs {ℓ} : {A : Type ℓ} → (A → A → Type 0) → List A → List A → Type 0
AllPairs R [] [] = Unit
AllPairs R [] (y ∷ ys) = ⊥
AllPairs R (x ∷ xs) [] = ⊥
AllPairs R (x ∷ xs) (y ∷ ys) = R x y × AllPairs R xs ys

pub AllPairs-refl {ℓ} :
    {A : Type ℓ} (R : A → A → Type 0) → ((x : A) → R x x) → (xs : List A) → AllPairs R xs xs
AllPairs-refl R same [] = tt
AllPairs-refl R same (x ∷ xs) = (same x, AllPairs-refl R same xs)

module _ {ℓ} {S A : Type ℓ} (R : A → A → Type 0) (f : A → S → Result (Unit {ℓ}) × A × S) where
  pairs_after :
      ((x : A) → R x x)
      → {x : A} (xs : List A) (rest : S → Result (Unit {ℓ}) × List A × S)
      → ((s : S) → AllPairs R xs (rest s).1)
      → (out : Result (Unit {ℓ}) × A × S) → R x out.1
      → AllPairs R (x ∷ xs) (update_after xs rest out).1
  unfolding update_after
  pairs_after same xs rest ih (ok _, x', s') h = (h, ih s')
  pairs_after same xs rest ih (err e, x', s') h = (h, AllPairs-refl R same xs)

  -- Where the body relates an element to what it becomes, so does the loop, also where it stops.
  pub update_each_pairs :
      ((x : A) → R x x)
      → ((x : A) (s : S) → R x (f x s).1)
      → (xs : List A) (s : S) → AllPairs R xs (update_each f xs s).1
  unfolding update_each
  update_each_pairs same keep [] s = tt
  update_each_pairs same keep (x ∷ xs) s =
      pairs_after same xs (update_each f xs) (update_each_pairs same keep xs) (f x s) (keep x s)

continue_keeps {ℓ} :
    {S A B : Type ℓ} (P : S → Type 0) (f : A → Exec S B) (out : Result A × S)
    → P out.1
    → ((a : A) (s : S) → P s → P (f a s).1)
    → P (continue out.0 f out.1).1
continue_keeps P f (ok a, s) h k = k a s h
continue_keeps P f (err e, s) h k = h

-- An invariant goes through a bind.
pub bind_keeps {ℓ} :
    {S A B : Type ℓ} (P : S → Type 0) (m : Exec S A) (f : A → Exec S B) (s : S)
    → P (m s).1
    → ((a : A) (s : S) → P s → P (f a s).1)
    → P ((m >>= f) s).1
bind_keeps P m f s h k = continue_keeps P f (m s) h k

for_each_step {ℓ} :
    {S A : Type ℓ} (f : A → Exec S (Unit {ℓ})) (xs : List A) (out : Result (Unit {ℓ}) × S) (s' : S)
    → (let all : Result (Unit {ℓ}) × S = elim out.0 [
      | ok _ ↦ for_each xs f out.1
      | err e ↦ (err e, out.1)
    ] in
        all)
      ≡ (ok tt, s')
    → (t : S) × (out ≡ (ok tt, t)) × (for_each xs f t ≡ (ok tt, s'))
for_each_step f xs (ok _, t) s' h = (t, refl, h)
for_each_step f xs (err e, t) s' h = cc (ap (λ p. p.0) h)

pub for_each-nil {ℓ} :
    {S A : Type ℓ} (f : A → Exec S (Unit {ℓ})) (s s' : S) → for_each [] f s ≡ (ok tt, s') → s ≡ s'
unfolding for_each
for_each-nil f s s' h = ap (λ p. p.1) h

-- A loop that returns has made its first round, and the rounds behind it, with success.
pub for_each-eq-ok {ℓ} :
    {S A : Type ℓ} (f : A → Exec S (Unit {ℓ})) (x : A) (xs : List A) (s s' : S)
    → for_each (x ∷ xs) f s ≡ (ok tt, s')
    → (t : S) × (f x s ≡ (ok tt, t)) × (for_each xs f t ≡ (ok tt, s'))
unfolding for_each
for_each-eq-ok f x xs s s' h = for_each_step f xs (f x s) s' h

continue-eq-ok {ℓ} :
    {S A B : Type ℓ} (f : A → Exec S B) (out : Result A × S) (b : B) (s' : S)
    → continue out.0 f out.1 ≡ (ok b, s')
    → (a : A) × (t : S) × (out ≡ (ok a, t)) × (f a t ≡ (ok b, s'))
continue-eq-ok f (ok a, t) b s' h = (a, t, refl, h)
continue-eq-ok f (err e, t) b s' h = cc (ap (λ p. p.0) h)

-- A bind that returns has returned from both parts.
pub >>=-eq-ok {ℓ} :
    {S A B : Type ℓ} (m : Exec S A) (f : A → Exec S B) (s : S) (b : B) (s' : S)
    → (m >>= f) s ≡ (ok b, s')
    → (a : A) × (t : S) × (m s ≡ (ok a, t)) × (f a t ≡ (ok b, s'))
>>=-eq-ok m f s b s' h = continue-eq-ok f (m s) b s' h

bind_out {ℓ} :
    {S A B C : Type ℓ} (f : A → Exec S B) (g : B → Exec S C) (out : Result A × S)
    → continue (continue out.0 f out.1).0 g (continue out.0 f out.1).1
      ≡ continue out.0 (λ a. f a >>= g) out.1
bind_out f g (ok a, s) = refl
bind_out f g (err e, s) = refl

pub bind_assoc {ℓ} :
    {S A B C : Type ℓ} (m : Exec S A) (f : A → Exec S B) (g : B → Exec S C)
    → ((m >>= f) >>= g) ≡ (m >>= λ a. f a >>= g)
bind_assoc m f g = fun_ext λ s. bind_out f g (m s)

each_out {ℓ} :
    {S A B : Type ℓ} (f : A → Exec S (Unit {ℓ})) (xs : List A) (k : Exec S B)
    (out : Result (Unit {ℓ}) × S)
    → (let all : Result (Unit {ℓ}) × S = elim out.0 [
      | ok _ ↦ for_each xs f out.1
      | err e ↦ (err e, out.1)
    ] in
        continue all.0 (λ _. k) all.1)
      ≡ continue out.0 (λ _. for_each xs f >> k) out.1
each_out f xs k (ok _, s) = refl
each_out f xs k (err e, s) = refl

-- The loop, as its first round and the rounds behind it
pub for_each-cons {ℓ} :
    {S A B : Type ℓ} (f : A → Exec S (Unit {ℓ})) (x : A) (xs : List A) (k : Exec S B)
    → (for_each (x ∷ xs) f >> k) ≡ (f x >> (for_each xs f >> k))
unfolding for_each
for_each-cons f x xs k = fun_ext λ s. each_out f xs k (f x s)
