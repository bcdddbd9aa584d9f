-- ===== src/Sessions/IdList.antt =====
-- master/monitor.c, the text `{1,2,3}` that update_sessions builds in `id_list[1024]`.
use ovpn_manager.Prelude.{
  ℕ, ◌+◌, ◌*◌, ◌≤◌, ◌<◌, List, [], ◌∷◌, ◌++◌, length, length-append, All, arith,
}
use ovpn_manager.Sessions.Table.{ids_onto, id_list, id_list_size}
use ovpn_manager.Prelude.Decimal.{decimal, length-decimal-ge_four}

length-ids_onto-ge :
    (is : List ℕ) → All (λ i. 1000 ≤ i) is → 5 * length is ≤ length (ids_onto (b',' ∷ []) is)
unfolding ids_onto
length-ids_onto-ge [] h = omega arith
length-ids_onto-ge (i ∷ is) h = omega (
  arith,
  length-append (b',' ∷ decimal i) (ids_onto (b',' ∷ []) is),
  length-decimal-ge_four i h.0,
  length-ids_onto-ge is h.1,
)

-- The array overflows: 205 online profiles whose ids have at least four digits make a text that,
-- with its NUL, is longer than the 1024 bytes of `id_list`.
pub id_list_overflow :
    (ids : List ℕ)
    → 205 ≤ length ids
    → All (λ i. 1000 ≤ i) ids
    → id_list_size < length (id_list ids) + 1
unfolding id_list ids_onto
id_list_overflow [] n h = absurd (omega arith)
id_list_overflow (i ∷ is) n h = omega (
  arith,
  length-append (decimal i ++ ids_onto (b',' ∷ []) is) (b'}' ∷ []),
  length-append (decimal i) (ids_onto (b',' ∷ []) is),
  length-decimal-ge_four i h.0,
  length-ids_onto-ge is h.1,
)
