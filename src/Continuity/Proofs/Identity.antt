-- ===== src/Continuity/Proofs/Identity.antt =====
-- The identity of a version-2 delivery: `continuity_delivery_id` of task_continuity.py.
use Prim.Native.Char.{Char}
use mathlib.Core.Bool.{false≢true}
use universal_agent_middlewa.Prelude.{
  ℕ, zero, suc, ◌≡◌, refl, sym, ap, ◌∙◌, String, Bool, true, false, not, Option, none, some, List,
  [], ◌∷◌, all, ◌==◌, codes, ◌^^◌, arith,
}
use universal_agent_middlewa.TaskControl.Validate.{
  full_match, principal_head, principal_char, is_lower, is_digit, is_principal,
}
use universal_agent_middlewa.Continuity.Validate.{is_label}
use universal_agent_middlewa.Continuity.Binding.{separator, or_empty, identity_seed}

abbrev no_nul : String → Bool
no_nul s = all (λ c. not (c == 0)) (codes s)

abbrev nul : Char
nul = "\0"

-- A text without the separator does not begin with it.
not_nul : (y : Char) (b : String) → nul ≡ y → no_nul (String.◌∷◌ y b) ≡ false
not_nul y b e = rw (← e) refl

cons_inj : {x y : Char} {s t : String} → String.◌∷◌ x s ≡ String.◌∷◌ y t → (x ≡ y) × (s ≡ t)
cons_inj e = (cc, cc)

split :
    (a b c d : String)
    → no_nul a ≡ true
    → no_nul b ≡ true
    → a ^^ (separator ^^ c) ≡ b ^^ (separator ^^ d)
    → (a ≡ b) × (c ≡ d)
unfolding separator
split String.[] String.[] c d p q e = (refl, (cons_inj e).1)
split String.[] (String.◌∷◌ y b) c d p q e =
    absurd (false≢true (sym (not_nul y b (cons_inj e).0) ∙ q))
split (String.◌∷◌ x a) String.[] c d p q e =
    absurd (false≢true (sym (not_nul x a (sym (cons_inj e).0)) ∙ p))
split (String.◌∷◌ x a) (String.◌∷◌ y b) c d p q e =
    let i = cons_inj e in let r = split a b c d (ground arith) (ground arith) i.1 in (cc, r.1)

all_more :
    (p q : ℕ → Bool)
    → ((c : ℕ) → p c ≡ true → q c ≡ true)
    → (l : List ℕ) → all p l ≡ true
    → all q l ≡ true
all_more p q h [] e = refl
all_more p q h (c ∷ l) e = ground (arith, h c, all_more p q h l)

head-not_nul : (c : ℕ) → principal_head c ≡ true → not (c == 0) ≡ true
unfolding principal_head is_lower is_digit
head-not_nul zero e = cc
head-not_nul (suc c) e = ground arith

char-not_nul : (c : ℕ) → principal_char c ≡ true → not (c == 0) ≡ true
unfolding principal_char principal_head is_lower is_digit
char-not_nul zero e = cc
char-not_nul (suc c) e = ground arith

matched-no_nul :
    (l : List ℕ)
    → full_match principal_head principal_char 1 63 l ≡ true
    → all (λ c. not (c == 0)) l ≡ true
unfolding full_match
matched-no_nul [] e = cc
matched-no_nul (c ∷ l) e =
    ground (arith, head-not_nul c, all_more principal_char (λ c. not (c == 0)) char-not_nul l)

label-no_nul : (s : String) → is_label s ≡ true → no_nul s ≡ true
unfolding is_label
label-no_nul s e = matched-no_nul (codes s) e

principal-no_nul : (s : String) → is_principal s ≡ true → no_nul s ≡ true
unfolding is_principal
principal-no_nul s e = matched-no_nul (codes s) e

-- The namespace and key that make a version-2 delivery's identity.
pub record SameIdentity (endpoint other_endpoint : Option String)
    (owner other_owner principal other_principal key other_key : String) : Type 0 where
  pub same_endpoint : endpoint ≡ other_endpoint
  pub same_owner : owner ≡ other_owner
  pub same_principal : principal ≡ other_principal
  pub same_key : key ≡ other_key

abbrev pub is_endpoint : Option String → Bool
is_endpoint none = true
is_endpoint (some s) = is_label s

endpoint-no_nul : (o : Option String) → is_endpoint o ≡ true → no_nul (or_empty o) ≡ true
unfolding or_empty
endpoint-no_nul none e = refl
endpoint-no_nul (some s) e = label-no_nul s e

label-nonempty : is_label "" ≡ true → ⊥
unfolding is_label full_match
label-nonempty e = false≢true e

or_empty_inj :
    (o p : Option String)
    → is_endpoint o ≡ true
    → is_endpoint p ≡ true
    → or_empty o ≡ or_empty p
    → o ≡ p
unfolding or_empty
or_empty_inj none none a b e = refl
or_empty_inj none (some s) a b e = absurd (label-nonempty (ap is_label e ∙ b))
or_empty_inj (some s) none a b e = absurd (label-nonempty (ap is_label (sym e) ∙ a))
or_empty_inj (some s) (some t) a b e = ap some e

prefix_inj :
    (s t : String)
    → "uam-delivery-v2" ^^ separator ^^ s ≡ "uam-delivery-v2" ^^ separator ^^ t
    → s ≡ t
prefix_inj s t e = (split "uam-delivery-v2" "uam-delivery-v2" s t refl refl e).1

-- Two identities whose endpoint and owner are labels, or an endpoint that is not given, and whose principals are
-- well formed, make one seed only if they are the same: one owner's key never stands for another's.
pub identity_seed-SameIdentity :
    (endpoint other_endpoint : Option String)
    (owner other_owner principal other_principal key other_key : String)
    → is_endpoint endpoint ≡ true
    → is_endpoint other_endpoint ≡ true
    → is_label owner ≡ true
    → is_label other_owner ≡ true
    → is_principal principal ≡ true
    → is_principal other_principal ≡ true
    → identity_seed endpoint owner principal key
      ≡ identity_seed other_endpoint other_owner other_principal other_key
    → SameIdentity endpoint other_endpoint owner other_owner principal other_principal key other_key
unfolding identity_seed
identity_seed-SameIdentity n n2 o o2 p p2 k k2 hn hn2 ho ho2 hp hp2 e =
    let a =
      split (or_empty n) (or_empty n2) _ _ (endpoint-no_nul n hn) (endpoint-no_nul n2 hn2)
        (prefix_inj _ _ e) in
    let b = split o o2 _ _ (label-no_nul o ho) (label-no_nul o2 ho2) a.1 in
    let c = split p p2 _ _ (principal-no_nul p hp) (principal-no_nul p2 hp2) b.1 in
    record {
      same_endpoint = or_empty_inj n n2 hn hn2 a.0;
      same_owner = b.0;
      same_principal = c.0;
      same_key = c.1;
    }
