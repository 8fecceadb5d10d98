-- ===== src/Chain/Certificates/Order.antt =====
-- linera-chain/src/data_types.rs: signatures in the order of their names, and the insertion by name
-- that `add_signature` and the sort make.
use mathlib.Core.List.{Perm}
use mathlib.Core.List.Perm
use linera_protocol.Prelude.{
  ◌+◌, ◌<◌, ◌≡◌, ◌≢◌, ◌↔◌, refl, sym, arith, true, Bool-cases, inl, inr, [], ◌∷◌, All, some, ltb,
}
use linera_protocol.Base.Identifiers.{RoundNumber, Signature}
use linera_protocol.Execution.Committee.{Committee, ValidatorName, weight}
use linera_protocol.Chain.DataTypes.{Signatures, HashedValue}
use linera_protocol.Chain.Certificates.{
  deserialize, insert_by_name, is_strictly_ordered, sort_by_name, new_certificate,
}
use linera_protocol.Chain.Certificates.Signers.{Distinct, Fresh, HaveRights, signed_weight}

-- The predicate holds of every entry of the list with one more entry.
pub All-insert {κ} :
    (P : ValidatorName × Signature → Type κ) (s : ValidatorName × Signature) (sigs : Signatures)
    → P s
    → All P sigs
    → All P (insert_by_name s sigs)
unfolding insert_by_name
All-insert P s [] p ps = (p, ps)
All-insert P s (t ∷ rest) p ps = elim (Bool-cases (ltb t.0 s.0)) [
  | inl lower ↦ rw lower (ps.0, All-insert P s rest p ps.1)
  | inr upper ↦ rw upper (p, ps)
]

pub Fresh-insert :
    (name : ValidatorName) (s : ValidatorName × Signature) (sigs : Signatures)
    → s.0 ≢ name
    → Fresh name sigs
    → Fresh name (insert_by_name s sigs)
Fresh-insert name s sigs n f = All-insert (λ t. t.0 ≢ name) s sigs n f

pub HaveRights-insert :
    (c : Committee) (s : ValidatorName × Signature) (sigs : Signatures)
    → 0 < weight c s.0
    → HaveRights c sigs
    → HaveRights c (insert_by_name s sigs)
HaveRights-insert c s sigs r rs = All-insert (λ t. 0 < weight c t.0) s sigs r rs

pub Distinct-insert :
    (s : ValidatorName × Signature) (sigs : Signatures)
    → Fresh s.0 sigs
    → Distinct sigs
    → Distinct (insert_by_name s sigs)
unfolding insert_by_name
Distinct-insert s [] f d = (tt, tt)
Distinct-insert s (t ∷ rest) f d = elim (Bool-cases (ltb t.0 s.0)) [
  | inl lower ↦
      rw lower (Fresh-insert t.0 s rest (λ e. f.0 (sym e)) d.0, Distinct-insert s rest f.1 d.1)
  | inr upper ↦ rw upper (f, d)
]

pub signed_weight-insert :
    (c : Committee) (s : ValidatorName × Signature) (sigs : Signatures)
    → signed_weight c (insert_by_name s sigs) ≡ weight c s.0 + signed_weight c sigs
unfolding insert_by_name signed_weight
signed_weight-insert c s [] = refl
signed_weight-insert c s (t ∷ rest) = ground (arith, signed_weight-insert c s rest)

-- Every entry lies above the name.
abbrev Above : ValidatorName → Signatures → Type 0
Above name sigs = All (λ s. name < s.0) sigs

-- Every entry lies below all that follow.
abbrev pub IsOrdered : Signatures → Type 0
IsOrdered [] = Unit {0}
IsOrdered (s ∷ rest) = Above s.0 rest × IsOrdered rest

Above-trans : (m n : ValidatorName) (sigs : Signatures) → m < n → Above n sigs → Above m sigs
Above-trans m n [] h above = tt
Above-trans m n (s ∷ rest) h above = (omega arith, Above-trans m n rest h above.1)

IsOrdered-test : (sigs : Signatures) → is_strictly_ordered sigs ≡ true → IsOrdered sigs
unfolding is_strictly_ordered
IsOrdered-test [] h = tt
IsOrdered-test (s ∷ []) h = (tt, tt)
IsOrdered-test (s ∷ t ∷ rest) h =
    let ih = IsOrdered-test (t ∷ rest) (ground arith) in
    let below : s.0 < t.0 = ground arith in ((below, Above-trans s.0 t.0 rest below ih.0), ih)

pub test-IsOrdered : (sigs : Signatures) → IsOrdered sigs → is_strictly_ordered sigs ≡ true
unfolding is_strictly_ordered
test-IsOrdered [] o = refl
test-IsOrdered (s ∷ []) o = refl
test-IsOrdered (s ∷ t ∷ rest) o = ground (arith, o.0.0, test-IsOrdered (t ∷ rest) o.1)

-- The source's test on neighbours is the order of all pairs.
pub is_strictly_ordered_iff :
    (sigs : Signatures) → (is_strictly_ordered sigs ≡ true) ↔ IsOrdered sigs
is_strictly_ordered_iff sigs = (IsOrdered-test sigs, test-IsOrdered sigs)

pub insert-IsOrdered :
    (s : ValidatorName × Signature) (sigs : Signatures)
    → Fresh s.0 sigs
    → IsOrdered sigs
    → IsOrdered (insert_by_name s sigs)
unfolding insert_by_name
insert-IsOrdered s [] f o = (tt, tt)
insert-IsOrdered s (t ∷ rest) f o = elim (Bool-cases (ltb t.0 s.0)) [
  | inl lower ↦
      rw lower
        (All-insert (λ u. t.0 < u.0) s rest (ground arith) o.0, insert-IsOrdered s rest f.1 o.1)
  | inr upper ↦
      let above : s.0 < t.0 = ground (arith, f.0) in
      rw upper ((above, Above-trans s.0 t.0 rest above o.0), o)
]

sort-Fresh :
    (name : ValidatorName) (sigs : Signatures) → Fresh name sigs → Fresh name (sort_by_name sigs)
unfolding sort_by_name
sort-Fresh name [] f = tt
sort-Fresh name (s ∷ rest) f =
    Fresh-insert name s (sort_by_name rest) f.0 (sort-Fresh name rest f.1)

pub sort-IsOrdered : (sigs : Signatures) → Distinct sigs → IsOrdered (sort_by_name sigs)
unfolding sort_by_name
sort-IsOrdered [] d = tt
sort-IsOrdered (s ∷ rest) d =
    insert-IsOrdered s (sort_by_name rest) (sort-Fresh s.0 rest d.0) (sort-IsOrdered rest d.1)

pub insert-perm :
    (s : ValidatorName × Signature) (sigs : Signatures) → Perm (s ∷ sigs) (insert_by_name s sigs)
unfolding insert_by_name
insert-perm s [] = Perm.refl _
insert-perm s (t ∷ rest) = elim (Bool-cases (ltb t.0 s.0)) [
  | inl lower ↦ rw lower (Perm.trans (Perm.swap t s rest) (Perm.cons t (insert-perm s rest)))
  | inr upper ↦ rw upper (Perm.refl _)
]

pub sort-perm : (sigs : Signatures) → Perm sigs (sort_by_name sigs)
unfolding sort_by_name
sort-perm [] = Perm.refl _
sort-perm (s ∷ rest) = Perm.trans (Perm.cons s (sort-perm rest)) (insert-perm s (sort_by_name rest))

-- Whatever the order of distinct signatures, `Certificate::new` holds them all, each once, and in the
-- order that the deserialization of a certificate asks for, so the certificate can be read back.
pub new_certificate-deserialize :
    (value : HashedValue) (round : RoundNumber) (sigs : Signatures)
    → Distinct sigs
    → Perm sigs (new_certificate value round sigs).signatures
      × (deserialize value round (new_certificate value round sigs).signatures
          ≡ some (new_certificate value round sigs))
unfolding new_certificate deserialize
new_certificate-deserialize value round sigs d = elim (Bool-cases (is_strictly_ordered sigs)) [
  | inl already ↦ rw already (Perm.refl _, rw already)
  | inr not_yet ↦
      rw not_yet (sort-perm sigs, rw (test-IsOrdered (sort_by_name sigs) (sort-IsOrdered sigs d)))
]
