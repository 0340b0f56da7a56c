-- ===== src/Regtext/Values/RoundTrip.antt =====
-- What the parser makes of the line that emitValue writes for a value.
use mathlib.Core.List.{append_assoc}
use hivekit.Common.{
  ℕ, ◌^◌, ◌<◌, ◌≡◌, refl, sym, ap, subst, ◌∙◌, arith, Bool, true, false, ◌||◌, List, [], ◌∷◌, ◌++◌,
  some, Outcome, ok, err, panic, ◌>>=◌, ok-inj, ◌==◌, if◌then◌else◌, All,
}
use hivekit.Common.Bytes.{Bytes, IsByte, le_bytes}
use hivekit.Common.Text.{codes, has_prefix}
use hivekit.Format.Consts.{bytes_equal}
use hivekit.Regmerge.Ordering.{set_value}
use hivekit.Regtext.Text.{quote, escape_string}
use hivekit.Regtext.Hex.{TextError, format_hex}
use hivekit.Regtext.Hex.RoundTrip.{reread}
use hivekit.Regtext.Values.{
  reg_sz, reg_expand_sz, reg_binary, reg_dword, reg_multi_sz, Reader, hex_fixed, put_words,
  encode_utf16le_zero_terminated, encode_multi_string, emit_data, parse_trimmed,
}
use hivekit.Regtext.Values.Marks.{
  IsMark, IsSolid, last_byte, last_byte-append, format_hex-IsMark, hex_fixed-IsMark,
}
use hivekit.Regtext.Values.Line.{parse_binary, parse_multi, parse_dword, parse_quoted}

-- A []byte is one of bytes, and a DWORD has 32 bits.
pub record IsReader {V : Type 0} (r : Reader V) : Type 0 where
  pub bytes_IsByte : (id : V) (bytes : Bytes) → r.value_bytes id ≡ ok bytes → All IsByte bytes
  pub dword_small : (id : V) (dw : ℕ) → r.value_dword id ≡ ok dw → dw < 2 ^ 32

module _ (utf16_encode : Bytes → List ℕ) where
  -- The type and the data that come back, of what the reader gives for a value: a REG_EXPAND_SZ as a
  -- REG_SZ, all other types but REG_MULTI_SZ and REG_DWORD as REG_BINARY, no data as one zero byte.
  abbrev pub come_back : {V : Type 0} → Reader V → V → ℕ → Outcome TextError (ℕ × Bytes)
  come_back r id type =
      if type == reg_sz || type == reg_expand_sz
      then (do
        str ← r.value_string id
        ok (reg_sz, encode_utf16le_zero_terminated utf16_encode str))
      else if type == reg_multi_sz
      then (do vals ← r.value_strings id; ok (reg_multi_sz, encode_multi_string utf16_encode vals))
      else if type == reg_dword
      then (do dw ← r.value_dword id; ok (reg_dword, le_bytes 4 dw))
      else (do bytes ← r.value_bytes id; ok (reg_binary, reread bytes))

  put_words-IsByte :
      (words : List ℕ) (rest : Bytes) → All IsByte rest → All IsByte (put_words words ++ rest)
  unfolding put_words
  put_words-IsByte [] rest h = h
  put_words-IsByte (w ∷ words) rest h = (omega arith, (omega arith, put_words-IsByte words rest h))

  multi-IsByte : (vals : List Bytes) → All IsByte (encode_multi_string utf16_encode vals)
  unfolding encode_multi_string encode_utf16le_zero_terminated
  multi-IsByte [] = (omega arith, (omega arith, tt))
  multi-IsByte (v ∷ vals) =
      let rest =
        put_words-IsByte (utf16_encode v) _ (omega arith, (omega arith, multi-IsByte vals)) in
      subst (All IsByte) (sym (append_assoc (put_words (utf16_encode v)) (0 ∷ 0 ∷ []) _)) rest

  words-reread :
      (words : List ℕ) (rest : Bytes)
      → reread ((put_words words ++ 0 ∷ 0 ∷ []) ++ rest) ≡ (put_words words ++ 0 ∷ 0 ∷ []) ++ rest
  unfolding put_words
  words-reread [] rest = refl
  words-reread (w ∷ words) rest = refl

  multi-reread :
      (vals : List Bytes)
      → reread (encode_multi_string utf16_encode vals) ≡ encode_multi_string utf16_encode vals
  unfolding encode_multi_string encode_utf16le_zero_terminated
  multi-reread [] = refl
  multi-reread (v ∷ vals) = words-reread (utf16_encode v) (encode_multi_string utf16_encode vals)

  module _ (path name : Bytes) where
    -- Text without white space at its ends that is read as some type and data.
    abbrev pub IsRead : Bytes → ℕ × Bytes → Type 0
    IsRead text (type, bytes) =
        IsSolid text
        × (parse_trimmed utf16_encode path name text ≡ some (ok (set_value path name type bytes)))

    string-IsRead :
        (str : Bytes)
        → IsRead
            (quote ∷ escape_string str ++ quote ∷ [])
            (reg_sz, encode_utf16le_zero_terminated utf16_encode str)
    unfolding parse_trimmed bytes_equal has_prefix last_byte IsSolid
    string-IsRead str = (
      (refl, subst IsMark (sym (last_byte-append (escape_string str) [] quote quote)) refl),
      ap some (parse_quoted utf16_encode path name str),
    )

    multi-IsRead :
        (vals : List Bytes)
        → IsRead
            (codes "hex(7):" ++ format_hex (encode_multi_string utf16_encode vals))
            (reg_multi_sz, encode_multi_string utf16_encode vals)
    unfolding parse_trimmed bytes_equal has_prefix last_byte IsSolid
    multi-IsRead vals = (
      (refl, format_hex-IsMark _ b':' (multi-IsByte vals)),
      parse_multi path name _ (multi-IsByte vals)
          ∙ ap (λ b. some (ok (set_value path name reg_multi_sz b))) (multi-reread vals),
    )

    dword-IsRead :
        (dw : ℕ)
        → dw < 2 ^ 32
        → IsRead (codes "dword:" ++ hex_fixed 8 dw) (reg_dword, le_bytes 4 dw)
    unfolding parse_trimmed bytes_equal has_prefix last_byte IsSolid
    dword-IsRead dw h = ((refl, hex_fixed-IsMark 7 dw b':'), ap some (parse_dword path name dw h))

    binary-IsRead :
        (bytes : Bytes)
        → All IsByte bytes
        → IsRead (codes "hex:" ++ format_hex bytes) (reg_binary, reread bytes)
    unfolding parse_trimmed bytes_equal has_prefix last_byte IsSolid
    binary-IsRead bytes h = ((refl, format_hex-IsMark bytes b':' h), parse_binary path name bytes h)

    -- The text, if there is one, is read as what `back` is then.
    abbrev pub Agree : Outcome TextError Bytes → Outcome TextError (ℕ × Bytes) → Type 0
    Agree printed back =
        (text : Bytes) → printed ≡ ok text → (d : ℕ × Bytes) × (back ≡ ok d) × IsRead text d

    Agree-call :
        {A : Type 0} (call : Outcome TextError A) (print : A → Bytes) (back : A → ℕ × Bytes)
        → ((a : A) → call ≡ ok a → IsRead (print a) (back a))
        → Agree (call >>= λ a. ok (print a)) (call >>= λ a. ok (back a))
    Agree-call panic print back h text e = cc
    Agree-call (err problem) print back h text e = cc
    Agree-call (ok a) print back h text e =
        (back a, refl, subst (λ t. IsRead t (back a)) (ok-inj (print a) text e) (h a refl))

    Agree-if :
        (b : Bool) (p q : Outcome TextError Bytes) (x y : Outcome TextError (ℕ × Bytes))
        → Agree p x
        → Agree q y
        → Agree (if b then p else q) (if b then x else y)
    Agree-if true p q x y h k = h
    Agree-if false p q x y h k = k

    -- What emitValue writes for the data of a value is read as what comes back of it.
    pub data-Agree :
        {V : Type 0} (r : Reader V)
        → IsReader r
        → (id : V) (type : ℕ) → Agree (emit_data utf16_encode r id type) (come_back r id type)
    unfolding emit_data
    data-Agree r laws id type =
        let strings = Agree-call (r.value_string id) _ _ λ str e. string-IsRead str in
        let multis = Agree-call (r.value_strings id) _ _ λ vals e. multi-IsRead vals in
        let dwords =
          Agree-call (r.value_dword id) _ _ λ dw e. dword-IsRead dw (laws.dword_small id dw e) in
        let others =
          Agree-call (r.value_bytes id) _ _
            λ bytes e. binary-IsRead bytes (laws.bytes_IsByte id bytes e) in
        Agree-if (type == reg_sz || type == reg_expand_sz) _ _ _ _ strings (
          Agree-if (type == reg_multi_sz) _ _ _ _ multis
            (Agree-if (type == reg_dword) _ _ _ _ dwords others))
