-- ===== src/Chain/MessageIds.antt =====
-- linera-chain/src/data_types.rs: which messages of a block an operation creates
-- (`message_id_for_operation`). A `usize` is of 64 bits.
use linera_protocol.Prelude.{
  ℕ, zero, suc, ◌+◌, ◌≤◌, ◌<◌, ◌≡◌, inl, inr, refl, sym, ap, ◌∙◌, subst, arith, ltb, leb,
  Bool-cases, if◌then◌else◌, List, [], ◌∷◌, length, get_elem?, All, Option, none, some, some_inj,
}
use linera_protocol.Base.Arithmetic.{u32_max, u64_max}
use linera_protocol.Base.Identifiers.{MessageId}
use linera_protocol.Chain.DataTypes.{ExecutedBlock}

-- `?` on an `Option`, and `checked_add`.
abbrev pub and_then : Option ℕ → (ℕ → Option MessageId) → Option MessageId
and_then none f = none
and_then (some a) f = f a

abbrev pub checked_sum : ℕ → ℕ → ℕ → Option ℕ
checked_sum top a b = if leb (a + b) top then some (a + b) else none

-- `ExecutedBlock::message_id`.
unfoldable pub message_id : ExecutedBlock → ℕ → MessageId
message_id b index = record { chain_id = b.block.chain_id; height = b.block.height; index = index }

-- The match on `transaction_index.checked_sub(1)`.
unfoldable pub first_message_index : List ℕ → ℕ → Option ℕ
first_message_index counts zero = some 0
first_message_index counts (suc index) = get_elem? counts index

abbrev pub id_below : ExecutedBlock → ℕ → ℕ → Option MessageId
id_below b index next = if ltb index next then some (message_id b index) else none

unfoldable pub message_id_for_operation : ExecutedBlock → ℕ → ℕ → Option MessageId
message_id_for_operation b operation_index message_index =
    and_then (checked_sum u64_max (length b.block.incoming_messages) operation_index)
      (λ transaction_index.
        and_then (first_message_index b.message_counts transaction_index) (λ first.
          and_then (checked_sum u32_max first message_index) (λ index.
            and_then (get_elem? b.message_counts transaction_index)
              (λ next. id_below b index next))))

-- The counts of the messages created up to each transaction do not fall.
abbrev pub Ascending : List ℕ → Type 0
Ascending [] = Unit {0}
Ascending (a ∷ rest) = All (λ b. a ≤ b) rest × Ascending rest

get-All :
    (a : ℕ) (counts : List ℕ) (i b : ℕ)
    → All (λ x. a ≤ x) counts
    → get_elem? counts i ≡ some b
    → a ≤ b
get-All a [] i b all h = cc
get-All a (x ∷ rest) zero b all h = omega (arith, all.0, some_inj h)
get-All a (x ∷ rest) (suc i) b all h = get-All a rest i b all.1 h

get-Ascending :
    (counts : List ℕ) (i j a b : ℕ)
    → Ascending counts
    → i ≤ j
    → get_elem? counts i ≡ some a
    → get_elem? counts j ≡ some b
    → a ≤ b
get-Ascending [] i j a b asc le h k = cc
get-Ascending (x ∷ rest) zero zero a b asc le h k = omega (arith, some_inj h, some_inj k)
get-Ascending (x ∷ rest) zero (suc j) a b asc le h k =
    subst (λ y. y ≤ b) (some_inj h) (get-All x rest j b asc.0 k)
get-Ascending (x ∷ rest) (suc i) zero a b asc le h k = absurd (omega arith)
get-Ascending (x ∷ rest) (suc i) (suc j) a b asc le h k =
    get-Ascending rest i j a b asc.1 (omega arith) h k

-- What is known of an identifier that is found: its place in the block.
record Located (b : ExecutedBlock) (operation_index message_index : ℕ) (id : MessageId)
    : Type 0 where
  first : ℕ
  next : ℕ
  begins :
      first_message_index b.message_counts (length b.block.incoming_messages + operation_index)
      ≡ some first
  ends : get_elem? b.message_counts (length b.block.incoming_messages + operation_index) ≡ some next
  below : first + message_index < next
  is : message_id b (first + message_index) ≡ id

and_then-some :
    (o : Option ℕ) (f : ℕ → Option MessageId) {id : MessageId}
    → and_then o f ≡ some id
    → (a : ℕ) × (o ≡ some a) × (f a ≡ some id)
and_then-some none f h = cc
and_then-some (some a) f h = (a, refl, h)

checked_sum-some : (top a b : ℕ) {c : ℕ} → checked_sum top a b ≡ some c → c ≡ a + b
checked_sum-some top a b h = ground arith

id_below-some :
    (b : ExecutedBlock) (index next : ℕ) {id : MessageId}
    → id_below b index next ≡ some id
    → (index < next) × (message_id b index ≡ id)
id_below-some b index next h = elim (Bool-cases (ltb index next)) [
  | inl below ↦ (ground arith, ground (arith, below))
  | inr above ↦ absurd (ground (arith, above))
]

message_id_for_operation-Located :
    (b : ExecutedBlock) (operation_index message_index : ℕ) (id : MessageId)
    → message_id_for_operation b operation_index message_index ≡ some id
    → Located b operation_index message_index id
unfolding message_id_for_operation
message_id_for_operation-Located b operation_index message_index id h =
    let place = length b.block.incoming_messages + operation_index in
    let (transaction_index, at, h₁) = and_then-some (checked_sum u64_max _ operation_index) _ h in
    let (first, begins, h₂) =
      and_then-some (first_message_index b.message_counts transaction_index) _ h₁ in
    let (index, sums, h₃) = and_then-some (checked_sum u32_max first message_index) _ h₂ in
    let (next, ends, h₄) = and_then-some (get_elem? b.message_counts transaction_index) _ h₃ in
    let (below, is) = id_below-some b index next h₄ in
    let same : transaction_index ≡ place = checked_sum-some u64_max _ operation_index at in
    let index_eq : index ≡ first + message_index =
      checked_sum-some u32_max first message_index sums in
    record {
      first = first;
      next = next;
      begins = subst (λ t. first_message_index b.message_counts t ≡ some first) same begins;
      ends = subst (λ t. get_elem? b.message_counts t ≡ some next) same ends;
      below = omega arith;
      is = subst (λ x. message_id b x ≡ id) index_eq is;
    }

-- A later transaction's messages begin where the earlier one's have ended.
begins_after :
    (counts : List ℕ) (i j next first : ℕ)
    → Ascending counts
    → i < j
    → get_elem? counts i ≡ some next
    → first_message_index counts j ≡ some first
    → next ≤ first
unfolding first_message_index
begins_after counts i zero next first asc lt h k = absurd (omega arith)
begins_after counts i (suc j) next first asc lt h k =
    get-Ascending counts i j next first asc (omega arith) h k

-- Of a block whose message counts do not fall, a message identifier belongs to one operation only and to
-- one of its messages only.
pub message_id_for_operation-inj :
    (b : ExecutedBlock) (i j m n : ℕ) (id : MessageId)
    → Ascending b.message_counts
    → message_id_for_operation b i m ≡ some id
    → message_id_for_operation b j n ≡ some id
    → (i ≡ j) × (m ≡ n)
unfolding message_id
message_id_for_operation-inj b i j m n id asc h k =
    let x = message_id_for_operation-Located b i m id h in
    let y = message_id_for_operation-Located b j n id k in
    let same : x.first + m ≡ y.first + n = ap (λ (d : MessageId). d.index) (x.is ∙ sym y.is) in
    let start = length b.block.incoming_messages in
    elim (Bool-cases (ltb i j)) [
      | inl before ↦
          let gap =
            begins_after b.message_counts (start + i) (start + j) x.next y.first asc (ground arith)
              x.ends y.begins in
          absurd (omega (arith, x.below))
      | inr not_before ↦ elim (Bool-cases (ltb j i)) [
        | inl after ↦
            let gap =
              begins_after b.message_counts (start + j) (start + i) y.next x.first asc
                (ground arith) y.ends x.begins in
            absurd (omega (arith, y.below))
        | inr not_after ↦
            let one : i ≡ j = ground arith in
            let firsts : x.first ≡ y.first = some_inj (
              sym x.begins
              ∙ ap (λ t. first_message_index b.message_counts (start + t)) one
              ∙ y.begins) in
            (one, omega arith)
      ]
    ]
