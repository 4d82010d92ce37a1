-- ===== src/AddrRange/Laws.antt =====
-- include/jevmachopp/CommonTypes.h: the operators of `AddrRange` beside each other.
use jevmachopp.Base.{ℕ, ◌^◌, ◌<◌, ◌≡◌, inl, inr, arith}
use jevmachopp.AddrRange.{AddrRange, null, size, join, shift_down, IsRange}

pub join-IsRange : (a b : AddrRange) → IsRange a → IsRange b → IsRange (join a b)
unfolding join
join-IsRange a b (inl ea) hb = ground arith
join-IsRange a b (inr ha) (inl eb) = ground arith
join-IsRange a b (inr ha) (inr hb) = ground arith

-- Joining well-formed ranges is commutative, null ranges included.
pub join_comm : (a b : AddrRange) → IsRange a → IsRange b → join a b ≡ join b a
unfolding join
join_comm a b ha hb = ground arith

-- Joining well-formed ranges is associative, null ranges included.
pub join_assoc :
    (a b c : AddrRange) → IsRange a → IsRange b → IsRange c → join (join a b) c ≡ join a (join b c)
unfolding join
join_assoc a b c ha hb hc = ground arith

pub join_self : (a : AddrRange) → IsRange a → join a a ≡ a
unfolding join
join_self a h = ground arith

pub null-join : (a : AddrRange) → IsRange a → join null a ≡ a
unfolding join
null-join a h = ground arith

-- Shifting a well-formed range down by a 64-bit distance keeps its size, also where its addresses
-- wrap around.
pub size-shift_down :
    (r : AddrRange) (d : ℕ) → IsRange r → d < 2 ^ 64 → size (shift_down r d) ≡ size r
unfolding size shift_down
size-shift_down r d h k = ground arith
