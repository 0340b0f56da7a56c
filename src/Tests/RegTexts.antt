-- ===== src/Tests/RegTexts.antt =====
-- Examples for the text of .reg files: a root `K` with one key `S`, which has three values.
use mathlib.Core.List.{Memᴰ}
use mathlib.Core.List.Memᴰ
use mathlib.Core.List.Permᴰ
use hivekit.Common.{
  ℕ, zero, suc, ◌+◌, ◌≤◌, length, length-append, ◌≡◌, ◌↔◌, ◌<◌, ◌^◌, refl, subst, sym, ap, arith,
  All, ok-inj, true, false, List, [], ◌∷◌, ◌++◌, some, ok, ltb, ◌==◌, if◌then◌else◌,
}
use hivekit.Common.Bytes.{Bytes, IsByte}
use hivekit.Common.Text.{codes, has_prefix}
use hivekit.Format.Consts.{bytes_equal}
use hivekit.Regmerge.Ordering.{EditOp, create_key, delete_key, delete_value}
use hivekit.Regtext.Values.{ValueMeta, Reader, crlf, emit_value}
use hivekit.Regtext.Values.Marks.{IsSolid, IsMark, last_byte}
use hivekit.Regtext.Values.RoundTrip.{IsReader}
use hivekit.Regtext.Values.Names.{TrimsSpace, LineRead}
use hivekit.Regtext.Values.Types.{Survives, emit_value-type_iff}
use hivekit.Regtext.Parser.{ParseState, start, is_seen, parse_lines, parse_reg}
use hivekit.Regtext.Parser.Once.{IsOnce, parse_lines-IsOnce}
use hivekit.Regtext.Parser.Recreated.{recreation_lost}
use hivekit.Regtext.Export.{KeyReader, join_path, export_reg}
use hivekit.Regtext.Export.Keys.{key_ops, value_ops}
use hivekit.Regtext.Export.OneLine.{HasOneLineNames}
use hivekit.Regtext.Export.RoundTrip.{document_ops, SectionsOnce}
use hivekit.Regtext.Export.Imported.{export_reg-parse_reg}
use hivekit.Regtext.Export.Reached.{Permutes, LeadsTo, here, down}
use hivekit.Regtext.Export.NeverPanics.{NeverPanics}
use hivekit.Regtext.Export.Depth.{export_reg-Answers}
use hivekit.Regtext.Hex.RoundTrip.{Answers}
use hivekit.Regtext.Lines.{feeds}
use hivekit.Tests.LineScanner.{scan_lines, scan_lines-IsScanner}

-- The trim of ASCII white space and control characters.
trim_left : Bytes → Bytes
trim_left [] = []
trim_left (x ∷ s) = let rest = trim_left s in if ltb x 33 then rest else x ∷ s

trim_right : Bytes → Bytes
trim_right [] = []
trim_right (x ∷ s) = elim (trim_right s) [
  | [] ↦ (if ltb x 33 then [] else x ∷ [])
  | y ∷ rest ↦ x ∷ y ∷ rest
]

abbrev trim_ascii : Bytes → Bytes
unfolding trim_left trim_right
trim_ascii s = trim_right (trim_left s)

trim_right-mark : (x : ℕ) (s : Bytes) → IsMark (last_byte x s) → trim_right (x ∷ s) ≡ x ∷ s
unfolding trim_right last_byte
trim_right-mark x [] h = ground arith
trim_right-mark x (y ∷ s) h = let rest = trim_right-mark y s h in ground (arith, rest)

trims_ascii : TrimsSpace trim_ascii
unfolding trim_left IsSolid trim_ascii
trims_ascii [] h = unfold trim_right in refl
trims_ascii (x ∷ s) h = let r = trim_right-mark x s h.1 in ground (arith, h.0, r)

-- The code units of ASCII text.
abbrev utf16_ascii : Bytes → List ℕ
utf16_ascii s = s

abbrev small_reader : Reader ℕ
small_reader = record {
  value_bytes = λ id. ok (1 ∷ 255 ∷ []);
  value_string = λ id. ok (codes "a\\\"b");
  value_strings = λ id. ok (codes "p" ∷ codes "q" ∷ []);
  value_dword = λ id. ok 513;
}

abbrev small_meta : ℕ → ValueMeta
small_meta id =
    if id == 0
    then record { name = codes "v"; type = 1 }
    else if id == 1
    then record { name = []; type = 4 }
    else record { name = codes "b"; type = 3 }

abbrev small_keys : KeyReader ℕ ℕ
small_keys = record {
  reader = small_reader;
  stat_key = λ id. ok (if id == 0 then codes "K" else codes "S");
  values = λ id. ok (if id == 0 then [] else 1 ∷ 2 ∷ 0 ∷ []);
  stat_value = λ id. ok (small_meta id);
  subkeys = λ id. ok (if id == 0 then 1 ∷ [] else []);
  sort_values = λ values. values;
  sort_children = λ named. named;
}

small_reader-IsReader : IsReader small_reader
small_reader-IsReader = record {
  bytes_IsByte = λ id bytes e. subst (All IsByte) (ok-inj _ _ e) (omega arith);
  dword_small = λ id dw e. subst (λ n. n < 2 ^ 32) (ok-inj _ _ e) (omega arith);
}

abbrev small_text : Bytes
small_text =
    codes "Windows Registry Editor Version 5.00"
    ++ crlf
    ++ crlf
    ++ codes "[K]"
    ++ crlf
    ++ crlf
    ++ codes "[K\\S]"
    ++ crlf
    ++ codes "@=dword:00000201"
    ++ crlf
    ++ codes "\"b\"=hex:01,ff"
    ++ crlf
    ++ codes "\"v\"=\"a\\\\\\\"b\""
    ++ crlf
    ++ crlf

small_text-printed : export_reg small_keys utf16_ascii 2 0 [] false ≡ some (ok small_text)
unfolding export_reg
small_text-printed = refl

small_once : SectionsOnce (document_ops small_keys utf16_ascii 2 0)
unfolding document_ops key_ops value_ops join_path bytes_equal has_prefix is_seen
small_once = ((refl, refl), refl, ((refl, refl), refl, tt))

small_plain : HasOneLineNames small_keys
unfolding feeds
small_plain = record {
  strings = record { one_string = λ id str e. ap feeds (sym (ok-inj _ _ e)) };
  one_name = λ id name e. ground (arith, e);
  one_value = λ id meta e. ground (arith, e);
  sorted = λ named h. h;
}

small-Permutes : Permutes small_keys
small-Permutes = record { of_values = λ v. Permᴰ.refl v; of_children = λ n. Permᴰ.refl n }

small-NeverPanics : NeverPanics small_keys
small-NeverPanics = record {
  value_bytes = λ v e. cc;
  value_string = λ v e. cc;
  value_strings = λ v e. cc;
  value_dword = λ v e. cc;
  stat_key = λ id e. cc;
  values = λ id e. cc;
  stat_value = λ v e. cc;
  subkeys = λ id e. cc;
}

small_child : (id child : ℕ) → Memᴰ child (if id == 0 then 1 ∷ [] else []) → (child ≡ 1) × (id ≡ 0)
small_child zero child (Memᴰ.head same) = (same, refl)
small_child zero child (Memᴰ.tail m) = absurd (Memᴰ.not-nil m)
small_child (suc id) child m =
    let t : (suc id == 0) ≡ false = ground arith in
    absurd (Memᴰ.not-nil (subst (λ b. Memᴰ child (if b then 1 ∷ [] else [])) t m))

-- How many keys stand below a key.
abbrev small_below : ℕ → ℕ
small_below id = if id == 0 then 1 else 0

small_depth :
    (at : List Bytes) (to : ℕ) (path : List Bytes) (id : ℕ)
    → LeadsTo small_keys at to path id
    → length at ≤ length path + small_below id
small_depth at to path id (here same_path same_id) =
    let l = ap length same_path in ground (arith, l)
small_depth at to path id (down subkeys child name read m stat more) =
    let s = ok-inj _ _ (sym read) in
    let (one, root) = small_child id child (subst (Memᴰ child) s m) in
    let l = small_depth at to (path ++ name ∷ []) child more in
    let a = length-append path (name ∷ []) in ground (arith, one, root, l, a)

abbrev read_as_utf16 : List ℕ → Bytes
read_as_utf16 words = words

abbrev same_name : Bytes → Bytes
same_name enc = enc

export_reg-parse_reg_example :
    (ops : List EditOp) × (document_ops small_keys utf16_ascii 2 0 ≡ some (ok ops))
    × (parse_reg read_as_utf16 same_name scan_lines utf16_ascii trim_ascii false small_text []
        ≡ some (ok ops))
export_reg-parse_reg_example =
    export_reg-parse_reg small_keys utf16_ascii small_reader-IsReader small_plain trim_ascii
      trims_ascii false read_as_utf16 same_name scan_lines scan_lines-IsScanner 2 0 [] [] small_text
      false (unfold bytes_equal in refl) (unfold bytes_equal in refl) small_once small_text-printed
      (omega arith)

export_reg-Answers_example : Answers (export_reg small_keys utf16_ascii 2 0 [] false)
export_reg-Answers_example =
    export_reg-Answers small_keys small-NeverPanics utf16_ascii small-Permutes 2 0 [] false
      λ name stat at to leads. small_depth at to (name ∷ []) 0 leads

abbrev quoted_meta : ValueMeta
quoted_meta = record { name = codes "a\"b"; type = 11 }

emit_value-type_iff_example :
    (l : LineRead utf16_ascii trim_ascii trims_ascii
      (codes "K\\S")
      small_reader
      0
      quoted_meta
      (codes "\"a\\\"b\"=hex:01,ff" ++ crlf))
    × Survives l.type
    × ((l.type ≡ 11) ↔ Survives 11)
emit_value-type_iff_example =
    emit_value-type_iff utf16_ascii trim_ascii trims_ascii (codes "K\\S") small_reader
      small_reader-IsReader 0 quoted_meta (codes "\"a\\\"b\"=hex:01,ff" ++ crlf)
      (unfold emit_value in refl)

-- A file that names a key twice.
abbrev two_sections : List Bytes
two_sections =
    codes "Windows Registry Editor Version 5.00" ∷ codes "[K]" ∷ codes "\"v\"=-" ∷ codes "[K]" ∷ []

abbrev two_sections_read : ParseState
two_sections_read = record {
  seen_header = true;
  ops = create_key (codes "K") ∷ delete_value (codes "K") (codes "v") ∷ [];
  seen_keys = codes "K" ∷ [];
  current = codes "K";
  pending_line = [];
}

parse_lines-IsOnce_example : IsOnce two_sections_read
parse_lines-IsOnce_example =
    parse_lines-IsOnce utf16_ascii trim_ascii false two_sections two_sections_read
      (unfold parse_lines trim_left trim_right bytes_equal in refl)

abbrev behind_header : ParseState
behind_header = record start { seen_header = true }

recreation_lost_example :
    parse_lines utf16_ascii trim_ascii false
      (codes "[K]" ∷ codes "[-K]" ∷ codes "[K]" ∷ [])
      behind_header
    ≡ some (
        ok (record behind_header {
          ops = create_key (codes "K") ∷ delete_key (codes "K") true ∷ [];
          seen_keys = codes "K" ∷ [];
          current = codes "K";
        }))
recreation_lost_example =
    recreation_lost utf16_ascii trim_ascii trims_ascii false (codes "K") behind_header (refl, refl)
      (unfold bytes_equal has_prefix in (refl, refl)) (unfold IsSolid last_byte in (refl, refl))
      (unfold is_seen in refl)
