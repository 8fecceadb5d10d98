-- ===== src/Chain/State/Sending.antt =====
-- To whom `process_raw_execution_result` schedules the messages of a block: to the recipients that they
-- name and to the subscribers of their channels.
use linera_protocol.Prelude.{
  ◌≡◌, ◌⊎◌, inl, inr, refl, sym, ap, subst, ◌∙◌, true, List, [], ◌∷◌, ◌++◌, map, All, Option, some,
  arith, Bool-cases,
}
use linera_protocol.Base.Identifiers.{BlockHeight, ChainId, ChannelName, recipient, subscribers}
use linera_protocol.Base.Maps.{Key, Entries, find, member, delete, nat_key, put}
use linera_protocol.Base.Maps.Laws.{find-put_self, find-put_ne}
use linera_protocol.Execution.System.{RawOutgoingMessage}
use linera_protocol.Chain.DataTypes.{ChannelFullName, Target}
use linera_protocol.Chain.State.{Deliveries}
use linera_protocol.Chain.State.Results.{
  broadcasts_of, chain_target, channel_target, recipients_of, channel_of, broadcast_all,
  insert_once, or_new, set_channel, unsubscribe_all,
}
use linera_protocol.Chain.State.Recipients.{Has}

-- What stands in a set that is kept as a list.
pub member-Has : {A : Type 0} (key : Key A) (x : A) (l : List A) → member key x l ≡ true → Has x l
unfolding member
member-Has key x [] h = cc
member-Has key x (y ∷ l) h = ground (arith, member-Has key x l)

pub Has-map : {A B : Type 0} (f : A → B) (x : A) (l : List A) → Has x l → Has (f x) (map f l)
Has-map f x [] h = absurd h
Has-map f x (y ∷ l) (inl e) = inl (ap f e)
Has-map f x (y ∷ l) (inr h) = inr (Has-map f x l h)

Has-append : {A : Type 0} (x : A) (a b : List A) → (Has x a ⊎ Has x b) → Has x (a ++ b)
Has-append x [] b (inl h) = absurd h
Has-append x [] b (inr h) = h
Has-append x (y ∷ a) b (inl (inl e)) = inl e
Has-append x (y ∷ a) b (inl (inr h)) = inr (Has-append x a b (inl h))
Has-append x (y ∷ a) b (inr h) = inr (Has-append x a b (inr h))

All-append : {A : Type 0} (P : A → Type 0) (a b : List A) → All P a → All P b → All P (a ++ b)
All-append P [] b p q = q
All-append P (x ∷ a) b (p, ps) q = (p, All-append P a b ps q)

member-append :
    {A : Type 0} (key : Key A) (x : A) (a b : List A)
    → (member key x a ≡ true) ⊎ (member key x b ≡ true)
    → member key x (a ++ b) ≡ true
unfolding member
member-append key x [] b h = ground arith
member-append key x (y ∷ a) b h = ground (arith, member-append key x a b)

insert_once-keeps :
    {A : Type 0} (key : Key A) (x y : A) (set : List A)
    → member key x set ≡ true
    → member key x (insert_once key y set) ≡ true
unfolding insert_once
insert_once-keeps key x y set h = elim (Bool-cases (member key y set)) [
  | inl e ↦ rw e h
  | inr e ↦ rw e (member-append key x set (y ∷ []) (inl h))
]

member-one : {A : Type 0} (key : Key A) (x : A) → member key x (x ∷ []) ≡ true
unfolding member
member-one key x = ground arith

insert_once-has :
    {A : Type 0} (key : Key A) (x : A) (set : List A) → member key x (insert_once key x set) ≡ true
unfolding insert_once
insert_once-has key x set = elim (Bool-cases (member key x set)) [
  | inl e ↦ rw e e
  | inr e ↦ rw e (member-append key x set (x ∷ []) (inr (member-one key x)))
]

module _ {M : Type 0} where
  recipients_of-keeps :
      (id : ChainId) (messages : List (RawOutgoingMessage M)) (set : List ChainId)
      → member nat_key id set ≡ true
      → member nat_key id (recipients_of messages set) ≡ true
  unfolding recipients_of
  recipients_of-keeps id [] set h = h
  recipients_of-keeps id (m ∷ rest) set h =
      elim m.destination
        as (λ t.
          member nat_key id (elim t [
            | recipient id ↦ recipients_of rest (insert_once nat_key id set)
            | subscribers name ↦ recipients_of rest set
          ])
          ≡ true) [
            | recipient other ↦
                recipients_of-keeps id rest (insert_once nat_key other set)
                  (insert_once-keeps nat_key id other set h)
            | subscribers name ↦ recipients_of-keeps id rest set h
          ]

  pub recipients_of-Has :
      (id : ChainId) (m : RawOutgoingMessage M) (messages : List (RawOutgoingMessage M))
      (set : List ChainId)
      → Has m messages
      → m.destination ≡ recipient id
      → member nat_key id (recipients_of messages set) ≡ true
  unfolding recipients_of
  recipients_of-Has id m [] set h d = absurd h
  recipients_of-Has id m (x ∷ rest) set (inl e) d =
      let dx : x.destination ≡ recipient id = ap (λ y. y.destination) (sym e) ∙ d in
      rw dx
        (recipients_of-keeps id rest (insert_once nat_key id set) (insert_once-has nat_key id set))
  recipients_of-Has id m (x ∷ rest) set (inr h) d =
      elim x.destination
        as (λ t.
          member nat_key id (elim t [
            | recipient id ↦ recipients_of rest (insert_once nat_key id set)
            | subscribers name ↦ recipients_of rest set
          ])
          ≡ true) [
            | recipient other ↦ recipients_of-Has id m rest (insert_once nat_key other set) h d
            | subscribers name ↦ recipients_of-Has id m rest set h d
          ]

  module _ (names : Key ChannelName) where
    broadcasts_of-keeps :
        (name : ChannelName) (messages : List (RawOutgoingMessage M)) (set : List ChannelName)
        → member names name set ≡ true
        → member names name (broadcasts_of names messages set) ≡ true
    unfolding broadcasts_of
    broadcasts_of-keeps name [] set h = h
    broadcasts_of-keeps name (m ∷ rest) set h =
        elim m.destination
          as (λ t.
            member names name (elim t [
              | recipient id ↦ broadcasts_of names rest set
              | subscribers name ↦ broadcasts_of names rest (insert_once names name set)
            ])
            ≡ true) [
              | recipient other ↦ broadcasts_of-keeps name rest set h
              | subscribers other ↦
                  broadcasts_of-keeps name rest (insert_once names other set)
                    (insert_once-keeps names name other set h)
            ]

    pub broadcasts_of-Has :
        (name : ChannelName) (m : RawOutgoingMessage M) (messages : List (RawOutgoingMessage M))
        (set : List ChannelName)
        → Has m messages
        → m.destination ≡ subscribers name
        → member names name (broadcasts_of names messages set) ≡ true
    unfolding broadcasts_of
    broadcasts_of-Has name m [] set h d = absurd h
    broadcasts_of-Has name m (x ∷ rest) set (inl e) d =
        let dx : x.destination ≡ subscribers name = ap (λ y. y.destination) (sym e) ∙ d in
        rw dx (
          broadcasts_of-keeps name rest (insert_once names name set)
            (insert_once-has names name set))
    broadcasts_of-Has name m (x ∷ rest) set (inr h) d =
        elim x.destination
          as (λ t.
            member names name (elim t [
              | recipient id ↦ broadcasts_of names rest set
              | subscribers name ↦ broadcasts_of names rest (insert_once names name set)
            ])
            ≡ true) [
              | recipient other ↦ broadcasts_of-Has name m rest set h d
              | subscribers other ↦ broadcasts_of-Has name m rest (insert_once names other set) h d
            ]

pub direct-at :
    (height : BlockHeight) (chains : List ChainId)
    → All
        (λ (x : Target × BlockHeight). x.1 ≡ height)
        (map (λ id. (chain_target id, height)) chains)
direct-at height [] = tt
direct-at height (id ∷ rest) = (refl, direct-at height rest)

find_cons :
    (id id' : ChainId) (u : Unit {0}) (m : Entries ChainId (Unit {0}))
    → find nat_key id ((id', u) ∷ m) ≡ some tt
    → (id' ≡ id) ⊎ (find nat_key id m ≡ some tt)
unfolding find
find_cons id id' u m h = ground arith

module _ (channels : Key ChannelFullName) where
  -- The chain subscribes to the channel.
  abbrev pub Subscribed : ChainId → ChannelFullName → Deliveries → Type 0
  Subscribed id name s = find nat_key id (channel_of channels name s).subscribers ≡ some tt

  broadcast_sends :
      (id : ChainId) (name : ChannelFullName) (height : BlockHeight)
      (m : Entries ChainId (Unit {0}))
      → find nat_key id m ≡ some tt
      → Has {A = Target × BlockHeight}
          (channel_target id name, height)
          (map (λ e. (channel_target e.0 name, height)) m)
  unfolding find
  broadcast_sends id name height [] h = cc
  broadcast_sends id name height ((id', u) ∷ m) h = elim (find_cons id id' u m h) [
    | inl e ↦ inl (ap (λ x. (channel_target x name, height)) (sym e))
    | inr k ↦ inr (broadcast_sends id name height m k)
  ]

  Subscribed-set :
      (id : ChainId) (name other : ChannelFullName) (block_height : Option BlockHeight)
      (s : Deliveries)
      → Subscribed id name s
      → Subscribed id name (
          set_channel channels other
            (record (channel_of channels other s) { block_height = block_height })
            s)
  unfolding channel_of set_channel
  Subscribed-set id name other block_height s h = elim (channels.same other name) [
    | yes e ↦
        let state = record (channel_of channels other s) { block_height = block_height } in
        subst
          (λ n.
            find nat_key id
              (or_new (find channels n (put channels other state s.channels))).subscribers
            ≡ some tt)
          e
          (rw (find-put_self channels other state s.channels) (
            subst (λ n. find nat_key id (or_new (find channels n s.channels)).subscribers ≡ some tt)
              (sym e) h))
    | no n ↦
        subst (λ x. find nat_key id (or_new x).subscribers ≡ some tt)
          (sym (find-put_ne channels other name _ s.channels n)) h
  ]

  pub broadcast_all-at :
      (height : BlockHeight) (names : List ChannelFullName) (s : Deliveries)
      → All (λ (x : Target × BlockHeight). x.1 ≡ height) (broadcast_all channels height names s).1
  unfolding broadcast_all
  broadcast_all-at height [] s = tt
  broadcast_all-at height (name ∷ rest) s =
      All-append _ _ _ (at (channel_of channels name s).subscribers)
        (broadcast_all-at height rest _)
    where
      at :
          (m : Entries ChainId (Unit {0}))
          → All
              (λ (x : Target × BlockHeight). x.1 ≡ height)
              (map (λ e. (channel_target e.0 name, height)) m)
      at [] = tt
      at (e ∷ m) = (refl, at m)

  pub broadcast_all-sends :
      (id : ChainId) (name : ChannelFullName) (height : BlockHeight) (names : List ChannelFullName)
      (s : Deliveries)
      → Has name names
      → Subscribed id name s
      → Has {A = Target × BlockHeight}
          (channel_target id name, height)
          (broadcast_all channels height names s).1
  unfolding broadcast_all
  broadcast_all-sends id name height [] s h k = absurd h
  broadcast_all-sends id name height (x ∷ rest) s (inl e) k =
      let sends =
        broadcast_sends id x height (channel_of channels x s).subscribers
          (subst (λ n. Subscribed id n s) e k) in
      subst
        (λ n.
          Has {A = Target × BlockHeight} (channel_target id n, height)
            (broadcast_all channels height (x ∷ rest) s).1)
        (sym e) (Has-append _ _ _ (inl sends))
  broadcast_all-sends id name height (x ∷ rest) s (inr h) k = Has-append _ _ _ (
      inr
        (broadcast_all-sends id name height rest _ h (Subscribed-set id name x (some height) s k)))

  pub unsubscribe_all-channels :
      (left : List (ChannelFullName × ChainId)) (a b : Deliveries)
      → a.channels ≡ b.channels
      → (unsubscribe_all channels left a).channels ≡ (unsubscribe_all channels left b).channels
  unfolding unsubscribe_all set_channel channel_of
  unsubscribe_all-channels [] a b e = e
  unsubscribe_all-channels ((name, id) ∷ rest) a b e = unsubscribe_all-channels rest _ _ (
      ap
        (λ c.
          let state = or_new (find channels name c) in
          put channels name (record state { subscribers = delete nat_key id state.subscribers }) c)
        e)

  pub Subscribed-same :
      (id : ChainId) (name : ChannelFullName) (a b : Deliveries)
      → a.channels ≡ b.channels
      → Subscribed id name a
      → Subscribed id name b
  unfolding channel_of
  Subscribed-same id name a b e =
      subst (λ c. find nat_key id (or_new (find channels name c)).subscribers ≡ some tt) e
