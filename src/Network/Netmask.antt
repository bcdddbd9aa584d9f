-- ===== src/Network/Netmask.antt =====
-- The netmask that belongs to a prefix length.
use ovpn_manager.Prelude.{
  ℕ, ◌-◌, ◌/◌, ◌%◌, ◌^◌, ◌*◌, ◌+◌, ◌≤◌, ◌<◌, ◌≡◌, refl, ap, ap₂, ◌∙◌, true, false, ◌&&◌, List, [],
  ◌∷◌, eqb, eqb_iff, ◌++◌, some, ◌==◌, ==_iff, leb, if◌then◌else◌, Bytes, take, length, contains,
  arith, passes_until, passes_until-at, take-of_le, length-append,
}
use ovpn_manager.Prelude.Int.{ℤ, pos, negsuc, eqb_ℤ, atoi}
use ovpn_manager.Prelude.Decimal.{decimal}
use ovpn_manager.Network.{
  split_slash, prefix_of, mask_loop, dotted, mask_text, at_slash, cidr_to_netmask, cidr_mask,
}

-- The mask with `bits` leading ones.
abbrev pub leading_ones : ℕ → ℕ
leading_ones bits = 2 ^ 32 - 2 ^ (32 - bits)

mask_table :
    passes_until (λ b. mask_loop b 0 0 == leading_ones b && cidr_mask b == leading_ones b) 33 ≡ true
unfolding passes_until mask_loop cidr_mask
mask_table = refl

-- The two computations of a mask in the source agree, for every prefix length that is accepted:
-- both give the mask with `bits` leading ones.
pub mask_loop-cidr_mask :
    (bits : ℕ)
    → bits ≤ 32
    → (mask_loop bits 0 0 ≡ leading_ones bits) × (cidr_mask bits ≡ leading_ones bits)
mask_loop-cidr_mask bits h = ground (arith, passes_until-at _ 33 bits (omega arith) mask_table)

octet_table : passes_until (λ b. leb (length (decimal b)) 3) 256 ≡ true
unfolding passes_until decimal
octet_table = refl

length-octet : (b : ℕ) → b < 256 → length (decimal b) ≤ 3
length-octet b h = ground (arith, passes_until-at _ 256 b h octet_table)

pub length-dotted : (nm : ℕ) → length (dotted nm) ≤ 15
unfolding dotted
length-dotted nm = omega (
  arith,
  length-append (decimal (nm / 2 ^ 24 % 256)) (
      b'.'
      ∷ (decimal (nm / 2 ^ 16 % 256)
          ++ (b'.' ∷ (decimal (nm / 2 ^ 8 % 256) ++ (b'.' ∷ decimal (nm % 256)))))),
  length-append (decimal (nm / 2 ^ 16 % 256))
      (b'.' ∷ (decimal (nm / 2 ^ 8 % 256) ++ (b'.' ∷ decimal (nm % 256)))),
  length-append (decimal (nm / 2 ^ 8 % 256)) (b'.' ∷ decimal (nm % 256)),
  length-octet (nm / 2 ^ 24 % 256) (omega arith),
  length-octet (nm / 2 ^ 16 % 256) (omega arith),
  length-octet (nm / 2 ^ 8 % 256) (omega arith),
  length-octet (nm % 256) (omega arith),
)

suffix_table : passes_until (λ b. eqb_ℤ (atoi (decimal b)) (pos b)) 33 ≡ true
unfolding passes_until decimal atoi
suffix_table = refl

eqb_ℤ_pos : (a : ℤ) (b : ℕ) → eqb_ℤ a (pos b) ≡ true → a ≡ pos b
eqb_ℤ_pos (pos a) b h = ap pos ((==_iff a b).0 h)
eqb_ℤ_pos (negsuc a) b h = cc

atoi-decimal : (bits : ℕ) → bits ≤ 32 → atoi (decimal bits) ≡ pos bits
atoi-decimal bits h =
    eqb_ℤ_pos (atoi (decimal bits)) bits (passes_until-at _ 33 bits (omega arith) suffix_table)

pub split_slash-append :
    (net suffix : Bytes)
    → contains b'/' net ≡ false
    → split_slash (net ++ b'/' ∷ suffix) ≡ some (net, suffix)
unfolding split_slash
split_slash-append [] suffix h = refl
split_slash-append (c ∷ net) suffix h = ground (arith, split_slash-append net suffix)

mask_text-prefix :
    (bits : ℕ) → bits ≤ 32 → mask_text (prefix_of (pos bits)) 64 ≡ dotted (leading_ones bits)
unfolding mask_text prefix_of
mask_text-prefix bits h =
    let read : prefix_of (pos bits) ≡ some bits = unfold prefix_of in ground arith in
    let short = length-dotted (mask_loop bits 0 0) in
    rw (read, mask_text)
      (take-of_le 63 (dotted (mask_loop bits 0 0)) (omega arith)
        ∙ ap dotted (mask_loop-cidr_mask bits h).0)

take_whole :
    (net : Bytes)
    → length net < 64
    → take (if leb 64 (length net) then 63 else length net) net ≡ net
take_whole net h = ground (arith, take-of_le (length net) net)

cidr_to_netmask-dotted :
    (net : Bytes) (bits : ℕ)
    → contains b'/' net ≡ false
    → length net < 64
    → bits ≤ 32
    → cidr_to_netmask (net ++ b'/' ∷ decimal bits) 64 64 ≡ (net, dotted (leading_ones bits))
unfolding cidr_to_netmask at_slash
cidr_to_netmask-dotted net bits clean short h =
    rw (split_slash-append net (decimal bits) clean, cidr_to_netmask)
      (ap₂ (λ (a b : Bytes). (let p : Bytes × Bytes = (a, b) in p)) (take_whole net short)
        (ap (λ z. mask_text (prefix_of z) 64) (atoi-decimal bits h) ∙ mask_text-prefix bits h))

-- The numbers between the dots of a text, with the number so far.
unfoldable pub octets_from : ℕ → Bytes → List ℕ
octets_from n [] = n ∷ []
octets_from n (c ∷ s) =
    let next = octets_from 0 s in
    let more = octets_from (n * 10 + (c - b'0')) s in if c == b'.' then n ∷ next else more

abbrev pub octets : Bytes → List ℕ
octets s = octets_from 0 s

-- The octet whose leading bits are set as far as `bits` reaches beyond the `before` bits in front.
abbrev pub mask_octet : ℕ → ℕ → ℕ
mask_octet bits before = if leb (before + 8) bits then 255 else 256 - 2 ^ (8 - (bits - before))

abbrev pub mask_octets : ℕ → List ℕ
mask_octets bits =
    mask_octet bits 0 ∷ mask_octet bits 8 ∷ mask_octet bits 16 ∷ mask_octet bits 24 ∷ []

octets_table : passes_until (λ b. eqb (octets (dotted (leading_ones b))) (mask_octets b)) 33 ≡ true
unfolding passes_until octets_from dotted decimal eqb
octets_table = refl

-- A subnet `net/bits` gives back its network and the text of a mask of four numbers, of which the
-- bits are `bits` ones and then zeros, for every prefix length from 0 to 32 and every network text
-- that fits the buffers of 64 bytes.
pub cidr_to_netmask-cidr :
    (net : Bytes) (bits : ℕ)
    → contains b'/' net ≡ false
    → length net < 64
    → bits ≤ 32
    → let (network, netmask) = cidr_to_netmask (net ++ b'/' ∷ decimal bits) 64 64 in
      (network ≡ net) × (octets netmask ≡ mask_octets bits)
cidr_to_netmask-cidr net bits clean short h =
    let text_is = cidr_to_netmask-dotted net bits clean short h in
    (
      ap (λ p. p.0) text_is,
      ap (λ p. octets (p.1)) text_is
          ∙ (eqb_iff (octets (dotted (leading_ones bits))) (mask_octets bits)).0
              (passes_until-at _ 33 bits (omega arith) octets_table),
    )
