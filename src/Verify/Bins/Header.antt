-- ===== src/Verify/Bins/Header.antt =====
-- What AllInvariants accepts, ParseHeader of internal/format/regf.go reads.
use hivekit.Common.{◌+◌, ◌≤◌, ◌≡◌, arith, some, ok, length}
use hivekit.Common.Bytes.{Bytes, slice}
use hivekit.Format.Consts.{header_size}
use hivekit.Format.Regf.{Header, header_of, parse_header}
use hivekit.Verify.Bins.{regf_header, all_invariants}
use hivekit.Verify.Bins.Accepted.{then_go-ok, all_invariants-BinsTile}

-- The version that the tests ask for, and the parsed header.
regf_header-parse_header :
    (b : Bytes)
    → regf_header b ≡ ok tt
    → (parse_header b ≡ ok (header_of b))
      × ((header_of b).major_version ≡ 1)
      × (3 ≤ (header_of b).minor_version)
      × ((header_of b).minor_version ≤ 6)
unfolding regf_header parse_header slice
regf_header-parse_header b h = (ground arith, ground arith, ground arith, ground arith)

-- A file that AllInvariants accepts is parsed by ParseHeader: the major version is 1, the minor
-- version is from 3 to 6, and the file is the header page and as many bytes more as the parsed size
-- of the bins.
pub all_invariants-parse_header :
    (b : Bytes)
    → all_invariants b ≡ some (ok tt)
    → (h : Header) × (parse_header b ≡ ok h)
      × (length b ≡ header_size + h.hive_bins_data_size)
      × (h.major_version ≡ 1)
      × (3 ≤ h.minor_version)
      × (h.minor_version ≤ 6)
unfolding all_invariants
all_invariants-parse_header b h =
    let accepted : regf_header b ≡ ok tt = cc (then_go-ok (some (regf_header b)) _ h).0 in
    let (e, major, low, high) = regf_header-parse_header b accepted in
    (header_of b, e, (all_invariants-BinsTile b h).0, major, low, high)
