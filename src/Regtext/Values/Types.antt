-- ===== src/Regtext/Values/Types.antt =====
-- The types of values that survive the text of a .reg file.
use hivekit.Common.{
  ℕ, ◌≡◌, arith, List, ◌||◌, ◌==◌, true, Outcome, ok, err, panic, ◌>>=◌, ok-inj, if-cases, inl, inr,
  ap, ◌↔◌,
}
use hivekit.Common.Bytes.{Bytes}
use hivekit.Regtext.Hex.{TextError}
use hivekit.Regtext.Values.{
  reg_sz, reg_expand_sz, reg_binary, reg_dword, reg_multi_sz, ValueMeta, Reader, emit_value,
}
use hivekit.Regtext.Values.RoundTrip.{IsReader, come_back}
use hivekit.Regtext.Values.Names.{TrimsSpace, LineRead, emit_value-LineRead}

-- The types that the text tells apart.
abbrev pub Survives : ℕ → Type 0
Survives type =
    (type == reg_sz || type == reg_multi_sz || type == reg_dword || type == reg_binary) ≡ true

abbrev typed : ℕ → Bytes → Outcome TextError (ℕ × Bytes)
typed type bytes = ok (type, bytes)

call-type :
    {A : Type 0} (call : Outcome TextError A) (back : A → Bytes) (t u : ℕ) (bytes : Bytes)
    → (call >>= λ a. typed t (back a)) ≡ ok (u, bytes)
    → t ≡ u
call-type panic back t u bytes e = cc
call-type (err problem) back t u bytes e = cc
call-type (ok a) back t u bytes e = ap (λ d. d.0) (ok-inj (t, back a) (u, bytes) e)

come_back-type_iff :
    {V : Type 0} (utf16_encode : Bytes → List ℕ) (r : Reader V) (id : V) (type t : ℕ)
    (bytes : Bytes)
    → come_back utf16_encode r id type ≡ ok (t, bytes)
    → Survives t × ((t ≡ type) ↔ Survives type)
come_back-type_iff utf16_encode r id type t bytes e =
    elim (if-cases (type == reg_sz || type == reg_expand_sz) _ _ _ e) [
      | inl (b, h) ↦
          let f = call-type (r.value_string id) _ reg_sz t bytes h in ground (arith, b, f)
      | inr (b, h) ↦ elim (if-cases (type == reg_multi_sz) _ _ _ h) [
        | inl (c, k) ↦
            let f = call-type (r.value_strings id) _ reg_multi_sz t bytes k in
            ground (arith, b, c, f)
        | inr (c, k) ↦ elim (if-cases (type == reg_dword) _ _ _ k) [
          | inl (d, l) ↦
              let f = call-type (r.value_dword id) _ reg_dword t bytes l in
              ground (arith, b, c, d, f)
          | inr (d, l) ↦
              let f = call-type (r.value_bytes id) _ reg_binary t bytes l in
              ground (arith, b, c, d, f)
        ]
      ]
    ]

-- What emitValue writes for a value is one line and its CRLF. The line has no white space at its
-- ends, is none of a comment or a section, and is read by parseValueLineBytes as a write of the
-- value's name. The type of that write is REG_SZ, REG_MULTI_SZ, REG_DWORD or REG_BINARY, and it
-- is the value's own type exactly when that is one of the four. This is for any utf16.Encode, any
-- bytes.TrimSpace that leaves text without white space at its ends alone, and any reader that
-- gives bytes and DWORDs of 32 bits.
pub emit_value-type_iff :
    {V : Type 0} (utf16_encode : Bytes → List ℕ) (trim_space : Bytes → Bytes)
    (trims : TrimsSpace trim_space) (path : Bytes) (r : Reader V)
    → IsReader r
    → (id : V) (meta : ValueMeta) (text : Bytes) → emit_value utf16_encode r id meta ≡ ok text
    → (l : LineRead utf16_encode trim_space trims path r id meta text) × Survives l.type
      × ((l.type ≡ meta.type) ↔ Survives meta.type)
emit_value-type_iff utf16_encode trim_space trims path r laws id meta text e =
    let l = emit_value-LineRead utf16_encode trim_space trims path r laws id meta text e in
    let (kept, same) = come_back-type_iff utf16_encode r id meta.type l.type l.bytes l.back in
    (l, kept, same)
