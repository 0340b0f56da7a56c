-- ===== src/Format/Lists.antt =====
-- internal/format/list.go: decoding the lists of offsets (LI, LF, LH, RI and value lists).
pub mod Shape
use hivekit.Common.{
  ℕ, zero, suc, ◌+◌, Bool, true, false, not, ◌&&◌, ◌||◌, List, [], ◌∷◌, Outcome, ok, err, panic,
  ◌>>=◌, ◌>>◌, refuse, length, ltb, ◌==◌, if◌then◌else◌, take, drop,
}
use hivekit.Common.Bytes.{Bytes}
use hivekit.Common.Int.{ℤ, pos}
use hivekit.Buf.{add_int, mul_int, check_list_bounds, BoundsError}
use hivekit.Format.Consts.{
  Error, truncated, unsupported, sanity_limit, list_bounds, invalid_signature, li_signature,
  lf_signature, lh_signature, ri_signature, max_subkey_count, max_value_count, max_ri_list_count,
  list_header_size, bytes_equal,
}
use hivekit.Format.Encoding.{checked_read_u16, checked_read_u32}

-- The loops over `i`: the offset is `base + i * stride`, the list holds what is left to read.
-- `base` is 0 in every loop but that of DecodeRIList.
pub decode_entries : ℕ → ℕ → Bytes → ℕ → ℕ → Outcome Error (List ℕ)
decode_entries base stride b i zero = ok []
decode_entries base stride b i (suc n) = do
  val ← checked_read_u32 b (add_int (pos base) (mul_int (pos i) (pos stride)))
  rest ← decode_entries base stride b (i + 1) n
  ok (val ∷ rest)

-- `_, err := buf.CheckListBounds(…)`, an error wrapped.
abbrev pub bounds_checked : Outcome BoundsError ℤ → Outcome Error (Unit {0})
bounds_checked (ok _) = ok tt
bounds_checked (err _) = err list_bounds
bounds_checked panic = panic

pub decode_li : Bytes → ℕ → Outcome Error (List ℕ)
decode_li b count = do
  refuse (ltb max_subkey_count count) sanity_limit
  bounds_checked (check_list_bounds (pos (length b)) (pos 0) (pos count) (pos 4))
  decode_entries 0 4 b 0 count

pub decode_lf : Bytes → ℕ → Outcome Error (List ℕ)
decode_lf b count = do
  refuse (ltb max_subkey_count count) sanity_limit
  bounds_checked (check_list_bounds (pos (length b)) (pos 0) (pos count) (pos 8))
  decode_entries 0 8 b 0 count

-- The number of entries to read: what the list says, cut to a non-zero expectation.
abbrev pub entry_count : ℕ → ℕ → ℕ
entry_count count expected = if not (expected == 0) && ltb expected count then expected else count

-- The switch on the signature.
pub decode_by_signature : Bytes → Bytes → ℕ → Outcome Error (List ℕ)
decode_by_signature sig b count =
    if bytes_equal sig li_signature
    then decode_li b count
    else if bytes_equal sig lf_signature || bytes_equal sig lh_signature
    then decode_lf b count
    else err unsupported

pub decode_subkey_list : Bytes → ℕ → Outcome Error (List ℕ)
unfolding decode_by_signature
decode_subkey_list b expected = do
  refuse (ltb (length b) list_header_size) truncated
  count ← checked_read_u16 b (pos 2)
  refuse (ltb max_subkey_count count) sanity_limit
  decode_by_signature (take 2 b) (drop list_header_size b) (entry_count count expected)

is_ri_list : Bytes → Bool
is_ri_list b = if ltb (length b) 2 then false else bytes_equal (take 2 b) ri_signature

decode_ri_list : Bytes → Outcome Error (List ℕ)
decode_ri_list b = do
  refuse (ltb (length b) list_header_size) truncated
  refuse (not (bytes_equal (take 2 b) ri_signature)) invalid_signature
  count ← checked_read_u16 b (pos 2)
  refuse (ltb max_ri_list_count count) sanity_limit
  bounds_checked (check_list_bounds (pos (length b)) (pos list_header_size) (pos count) (pos 4))
  decode_entries list_header_size 4 b 0 count

pub decode_value_list : Bytes → ℕ → Outcome Error (List ℕ)
decode_value_list b zero = ok []
decode_value_list b (suc n) = do
  refuse (ltb max_value_count (suc n)) sanity_limit
  bounds_checked (check_list_bounds (pos (length b)) (pos 0) (pos (suc n)) (pos 4))
  decode_entries 0 4 b 0 (suc n)
