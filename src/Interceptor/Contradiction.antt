-- ===== src/Interceptor/Contradiction.antt =====
-- The logic guard blocks exactly the contradictions.
use qwed_a2a.Prelude.{
  ◌≡◌, ◌≢◌, ◌↔◌, ◌⊎◌, inl, inr, refl, sym, ◌∙◌, ap, Bool, true, false, ◌||◌, some, List, [], ◌∷◌,
  arith, add, contains, contains-add, Bool-cases, ◌==◌, ==_iff,
}
use qwed_a2a.Prelude.Text.{Text, lit, text-Eq}
use qwed_a2a.Interceptor.Message.{
  Value, array, Items, no_items, item, get, AgentMessage, EngineReason,
}
use qwed_a2a.Prelude.Text.{text_eq}
use qwed_a2a.Schema.{blocked}
use qwed_a2a.Interceptor.Decide.{of_result, has_status}
use qwed_a2a.Interceptor.Claim.{Unicode}
use qwed_a2a.Interceptor.Logic.{
  Assertion, claims, refused, read_assertion, all_read, read_assertions, both, insert_sorted,
  sorted, report, judge, verify_assertions, verify_logic,
}

-- Some assertion states a key, or states it negated.
abbrev pub Says : Unicode → Items → Text → Bool → Type 0
Says u no_items key negated = ⊥
Says u (item v vs) key negated = (read_assertion u v ≡ claims key negated) ⊎ Says u vs key negated

-- Every assertion can be read.
abbrev pub Readable : Unicode → Items → Type 0
Readable u no_items = Unit
Readable u (item v vs) =
    ((reason : EngineReason) → read_assertion u v ≢ refused reason) × Readable u vs

-- What the two sets hold after the loop.
abbrev Collects : Unicode → Items → List Text → List Text → List Text → List Text → Type 0
Collects u vs positive negative positive' negative' =
    (key : Text)
    → ((contains key positive' ≡ true) ↔ ((contains key positive ≡ true) ⊎ Says u vs key false))
      × ((contains key negative' ≡ true) ↔ ((contains key negative ≡ true) ⊎ Says u vs key true))

abbrev key_in : Assertion → Text
key_in (claims key negated) = key
key_in (refused reason) = []

abbrev polarity_in : Assertion → Bool
polarity_in (claims key negated) = negated
polarity_in (refused reason) = false

Assertion-cases :
    (a : Assertion)
    → ((reason : EngineReason) → a ≢ refused reason)
    → (key : Text) × (negated : Bool) × (a ≡ claims key negated)
Assertion-cases (claims key negated) h = (key, negated, refl)
Assertion-cases (refused reason) h = absurd (h reason refl)

added_iff :
    (a b : Text) (xs : List Text)
    → (contains b (add a xs) ≡ true) ↔ ((a ≡ b) ⊎ (contains b xs ≡ true))
added_iff a b xs = rw (contains-add a b xs) (ground (arith, ==_iff a b))

-- One assertion more: it adds its key to one set and leaves the other.
grows :
    (u : Unicode) (v : Value) (vs : Items) (key k : Text) (b : Bool)
    → read_assertion u v ≡ claims key b
    → (xs xs' : List Text)
    → (contains k xs' ≡ true) ↔ ((contains k (add key xs) ≡ true) ⊎ Says u vs k b)
    → (contains k xs' ≡ true) ↔ ((contains k xs ≡ true) ⊎ Says u (item v vs) k b)
grows u v vs key k b is xs xs' h =
    let added = added_iff key k xs in
    (
      λ c. elim (h.0 c) [
        | inl a ↦ elim (added.0 a) [
          | inl same ↦ inr (inl (is ∙ ap (λ x. claims x b) same))
          | inr old ↦ inl old
        ]
        | inr later ↦ inr (inr later)
      ],
      λ c. h.1 (elim c [
        | inl old ↦ inl (added.1 (inr old))
        | inr (inl here) ↦ inl (added.1 (inl (ap key_in (sym is ∙ here))))
        | inr (inr later) ↦ inr later
      ]),
    )

skips :
    (u : Unicode) (v : Value) (vs : Items) (key k : Text) (b b' : Bool)
    → read_assertion u v ≡ claims key b
    → b ≢ b'
    → (xs xs' : List Text) → (contains k xs' ≡ true) ↔ ((contains k xs ≡ true) ⊎ Says u vs k b')
    → (contains k xs' ≡ true) ↔ ((contains k xs ≡ true) ⊎ Says u (item v vs) k b')
skips u v vs key k b b' is other xs xs' h = (
  λ c. elim (h.0 c) [ inl old ↦ inl old | inr later ↦ inr (inr later) ],
  λ c. h.1 (elim c [
    | inl old ↦ inl old
    | inr (inl here) ↦ absurd (other (ap polarity_in (sym is ∙ here)))
    | inr (inr later) ↦ inr later
  ]),
)

read_assertions-Collects :
    (u : Unicode) (vs : Items) (positive negative : List Text)
    → Readable u vs
    → (positive' : List Text) × (negative' : List Text) × (read_assertions u vs positive negative
        ≡ all_read positive' negative')
      × Collects u vs positive negative positive' negative'
unfolding read_assertions
read_assertions-Collects u no_items positive negative r = (
  positive,
  negative,
  refl,
  λ key. (
    (inl, λ h. elim h [ inl x ↦ x | inr x ↦ absurd x ]),
    (inl, λ h. elim h [ inl x ↦ x | inr x ↦ absurd x ]),
  ),
)
read_assertions-Collects u (item v vs) positive negative (readable, r) =
    let (key, negated, is) = Assertion-cases (read_assertion u v) readable in
    let is_as : (b : Bool) → negated ≡ b → read_assertion u v ≡ claims key b =
      λ b e. is ∙ ap (claims key) e in
    elim (Bool-cases negated) [
      | inl neg ↦
          let (positive', negative', ends, collects) =
            read_assertions-Collects u vs positive (add key negative) r in
          (
            positive',
            negative',
            rw (read_assertions, is, neg) ends,
            λ k. (
              skips u v vs key k true false (is_as true neg) (λ e. absurd (cc)) positive positive'
                  (collects k).0,
              grows u v vs key k true (is_as true neg) negative negative' (collects k).1,
            ),
          )
      | inr pos ↦
          let (positive', negative', ends, collects) =
            read_assertions-Collects u vs (add key positive) negative r in
          (
            positive',
            negative',
            rw (read_assertions, is, pos) ends,
            λ k. (
              grows u v vs key k false (is_as false pos) positive positive' (collects k).0,
              skips u v vs key k false true (is_as false pos) (λ e. absurd (cc)) negative negative'
                  (collects k).1,
            ),
          )
    ]

-- The keys in both sets, in the order of the message.
both_iff :
    (key : Text) (xs ys : List Text)
    → (contains key (both xs ys) ≡ true) ↔ ((contains key xs ≡ true) × (contains key ys ≡ true))
unfolding both contains
both_iff key [] ys = (λ h. absurd (cc), λ h. absurd (cc))
both_iff key (x ∷ xs) ys = ground (arith, ==_iff x key, both_iff key xs ys)

insert_sorted-contains :
    (key t : Text) (ts : List Text)
    → contains key (insert_sorted t ts) ≡ (t == key || contains key ts)
unfolding insert_sorted contains
insert_sorted-contains key t [] = refl
insert_sorted-contains key t (u ∷ us) = ground (arith, insert_sorted-contains key t us)

sorted-contains : (key : Text) (ts : List Text) → contains key (sorted ts) ≡ contains key ts
unfolding sorted contains
sorted-contains key [] = refl
sorted-contains key (t ∷ ts) =
    insert_sorted-contains key t (sorted ts) ∙ ap (λ b. t == key || b) (sorted-contains key ts)

said :
    (u : Unicode) (vs : Items) (v : Value) (key : Text) (negated : Bool)
    → (contains key [] ≡ true) ⊎ Says u (item v vs) key negated
    → Says u (item v vs) key negated
unfolding contains
said u vs v key negated (inl h) = absurd (cc)
said u vs v key negated (inr h) = h

-- A report blocks the message exactly if it has keys.
report-blocks :
    (message : AgentMessage) (keys : List Text)
    → ((of_result message (report keys)).status ≡ blocked)
      ↔ ((key : Text) × (contains key keys ≡ true))
unfolding report contains of_result has_status lit text_eq
report-blocks message [] = (λ h. absurd (cc), λ h. absurd (cc))
report-blocks message (k ∷ ks) = (λ h. (k, ground (arith, ==_iff k k)), λ h. refl)

-- If the payload lists at least one assertion and all its assertions can be read, then the message
-- is blocked exactly if some key is asserted by one of them and negated by one of them.
pub verify_logic-blocks_iff :
    (u : Unicode) (message : AgentMessage) (v : Value) (vs : Items)
    → get (lit "assertions") message.payload ≡ some (array (item v vs))
    → Readable u (item v vs)
    → ((of_result message (verify_logic u message.payload)).status ≡ blocked)
      ↔ ((key : Text) × Says u (item v vs) key false × Says u (item v vs) key true)
unfolding verify_logic verify_assertions judge
verify_logic-blocks_iff u message v vs is readable =
    let (positive, negative, ends, collects) =
      read_assertions-Collects u (item v vs) [] [] readable in
    let keys = sorted (both positive negative) in
    let result : verify_logic u message.payload ≡ report keys =
      ap (verify_assertions u) is ∙ ap judge ends in
    let blocks = report-blocks message keys in
    let none_yet =
      λ (key : Text) (negated : Bool)
          (h : (contains key [] ≡ true) ⊎ Says u (item v vs) key negated).
        said u vs v key negated h in
    (
      λ h.
          let (key, is_in) = blocks.0 (ap (λ r. (of_result message r).status) (sym result) ∙ h) in
          let (in_positive, in_negative) =
            (both_iff key positive negative).0
              (sym (sorted-contains key (both positive negative)) ∙ is_in) in
          (
            key,
            none_yet key false ((collects key).0.0 in_positive),
            none_yet key true ((collects key).1.0 in_negative),
          ),
      λ h.
          let (key, asserted, negated) = h in
          let is_in =
            (both_iff key positive negative).1
              ((collects key).0.1 (inr asserted), (collects key).1.1 (inr negated)) in
          ap (λ r. (of_result message r).status) result
          ∙ blocks.1 (key, sorted-contains key (both positive negative) ∙ is_in),
    )
