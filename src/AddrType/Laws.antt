-- ===== src/AddrType/Laws.antt =====
-- The two address type conversions are inverse, and what the printable test accepts.
use mathlib.Core.Option
use central_uart.Prelude.{
  ℕ, ◌≡◌, refl, ◌≢◌, true, none, some, List, [], ◌∷◌, arith, all, leb, if◌then◌else◌,
}
use central_uart.Chars.{within}
use central_uart.AddrType.{AddrTypes, addr_type_to_wlt, addr_type_from_wlt, is_printable_ascii}

pub record AreDistinct (c : AddrTypes) : Type 0 where
  pub d01 : c.public ≢ c.random
  pub d02 : c.public ≢ c.public_id
  pub d03 : c.public ≢ c.random_id
  pub d12 : c.random ≢ c.public_id
  pub d13 : c.random ≢ c.random_id
  pub d23 : c.public_id ≢ c.random_id

-- With four distinct constants, the AT side may name the types 0 to 3 and no other, and each
-- converts back to itself.
pub addr_type_to-from :
    (c : AddrTypes) (w : ℕ)
    → AreDistinct c
    → Option.map (addr_type_to_wlt c) (addr_type_from_wlt c w true)
      ≡ (if leb w 3 then some w else none)
unfolding addr_type_from_wlt addr_type_to_wlt
addr_type_to-from c w d = ground arith

-- The test passes exactly where each byte lies in 0x20 … 0x7e.
pub is_printable_ascii_iff :
    (bytes : List ℕ) → is_printable_ascii (some bytes) ≡ all (within 0x20 0x7e) bytes
unfolding is_printable_ascii
is_printable_ascii_iff [] = refl
is_printable_ascii_iff (c ∷ cs) = ground (arith, is_printable_ascii_iff cs)
