-- ===== src/Chain/Inbox/Order.antt =====
-- linera-chain/src/inbox.rs: the order of cursors and their successors.
use linera_protocol.Prelude.{◌+◌, ◌≡◌, arith, true, false, ok, List, [], ◌∷◌}
use linera_protocol.Chain.DataTypes.{Event}
use linera_protocol.Chain.Inbox.{Cursor, cursor_of, cursor_lt, cursor_eq, try_add_one}

-- The order of cursors, as a proposition.
abbrev pub Le : Cursor → Cursor → Type 0
Le a b = cursor_lt b a ≡ false

abbrev pub Lt : Cursor → Cursor → Type 0
Lt a b = cursor_lt a b ≡ true

-- The cursor that follows, whether or not it fits.
abbrev pub next : Cursor → Cursor
next c = record { height = c.height; index = c.index + 1 }

pub try_add_one-ok : (c : Cursor) {d : Cursor} → try_add_one c ≡ ok d → d ≡ next c
unfolding try_add_one
try_add_one-ok c h = ground arith

pub Le-refl : (a : Cursor) → Le a a
unfolding cursor_lt
Le-refl a = ground arith

pub Le-trans : (a b c : Cursor) → Le a b → Le b c → Le a c
unfolding cursor_lt
Le-trans a b c h k = ground arith

pub next-Le : (a b : Cursor) → Lt a b → Le (next a) b
unfolding cursor_lt
next-Le a b h = ground arith

pub Lt-next : (a b : Cursor) → Le a b → Lt a (next b)
unfolding cursor_lt
Lt-next a b h = ground arith

pub Lt-Le : (a b : Cursor) → Lt a b → Le a b
unfolding cursor_lt
Lt-Le a b h = ground arith

pub Lt-irrefl : (a : Cursor) → Lt a a → ⊥
unfolding cursor_lt
Lt-irrefl a h = ground arith

pub cursor_eq-ne : (a b : Cursor) → Le a b → cursor_eq b a ≡ false → Lt a b
unfolding cursor_lt cursor_eq
cursor_eq-ne a b h k = ground arith

-- Events with increasing cursors, from `lo` on, and `hi` the cursor after the last.
abbrev pub Run : Cursor → List Event → Cursor → Type 0
Run lo [] hi = lo ≡ hi
Run lo (e ∷ rest) hi = Le lo (cursor_of e) × Run (next (cursor_of e)) rest hi
