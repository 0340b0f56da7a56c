-- ===== src/Regtext/Export/NeverPanics.antt =====
-- Panics of ExportReg: the methods of the reader, and the writers over them.
use hivekit.Common.{
  ℕ, ◌≡◌, ◌≢◌, refl, arith, List, [], ◌∷◌, Option, none, some, Outcome, ok, err, panic, ◌>>=◌,
  some-inj,
}
use hivekit.Common.Bytes.{Bytes}
use hivekit.Regtext.Hex.{TextError}
use hivekit.Regtext.Hex.RoundTrip.{Answers}
use hivekit.Regtext.Values.{emit_data, emit_value}
use hivekit.Regtext.Export.{KeyReader, follow, stat_children, children, emit_values, key_text}

-- No method of the reader panics.
pub record NeverPanics {K V : Type 0} (r : KeyReader K V) : Type 0 where
  pub value_bytes : (v : V) → r.reader.value_bytes v ≢ panic
  pub value_string : (v : V) → r.reader.value_string v ≢ panic
  pub value_strings : (v : V) → r.reader.value_strings v ≢ panic
  pub value_dword : (v : V) → r.reader.value_dword v ≢ panic
  pub stat_key : (id : K) → r.stat_key id ≢ panic
  pub values : (id : K) → r.values id ≢ panic
  pub stat_value : (v : V) → r.stat_value v ≢ panic
  pub subkeys : (id : K) → r.subkeys id ≢ panic

bind-never :
    {A B : Type 0} (o : Outcome TextError A) (next : A → Outcome TextError B)
    → o ≢ panic
    → ((a : A) → o ≡ ok a → next a ≢ panic)
    → (o >>= next) ≢ panic
bind-never panic next h k e = h refl
bind-never (err problem) next h k e = cc
bind-never (ok a) next h k e = k a refl e

pub follow-Answers :
    {A : Type 0} (p q : Option (Outcome TextError (List A)))
    → Answers p
    → Answers q
    → Answers (follow p q)
follow-Answers none q h k = absurd (h.0 refl)
follow-Answers (some panic) q h k = absurd (h.1 refl)
follow-Answers (some (err problem)) q h k = (λ e. cc, λ e. cc)
follow-Answers (some (ok xs)) none h k = absurd (k.0 refl)
follow-Answers (some (ok xs)) (some panic) h k = absurd (k.1 refl)
follow-Answers (some (ok xs)) (some (err problem)) h k = (λ e. cc, λ e. cc)
follow-Answers (some (ok xs)) (some (ok ys)) h k = (λ e. cc, λ e. cc)

pub some-Answers : {A : Type 0} (o : Outcome TextError A) → o ≢ panic → Answers (some o)
some-Answers o h = (λ e. cc, λ e. h (some-inj _ _ e))

module _ {K V : Type 0} (r : KeyReader K V) (never : NeverPanics r) where
  stat_children-never : (subkeys : List K) → stat_children r subkeys ≢ panic
  unfolding stat_children
  stat_children-never [] = λ e. cc
  stat_children-never (id ∷ subkeys) =
      bind-never (r.stat_key id) _ (never.stat_key id) λ name e.
        bind-never (stat_children r subkeys) _ (stat_children-never subkeys) λ rest f g. cc

  pub children-never : (id : K) → children r id ≢ panic
  unfolding children
  children-never id = bind-never (r.subkeys id) _ (never.subkeys id) λ subkeys e.
      bind-never (stat_children r subkeys) _ (stat_children-never subkeys) λ named f g. cc

  module _ (utf16_encode : Bytes → List ℕ) where
    emit_data-never : (v : V) (type : ℕ) → emit_data utf16_encode r.reader v type ≢ panic
    unfolding emit_data
    emit_data-never v type =
        let b = never.value_bytes v in
        let s = never.value_string v in
        let ss = never.value_strings v in let d = never.value_dword v in ground (arith, b, s, ss, d)

    emit_values-never : (values : List V) → emit_values r utf16_encode values ≢ panic
    unfolding emit_values emit_value
    emit_values-never [] = λ e. cc
    emit_values-never (v ∷ values) = bind-never (r.stat_value v) _ (never.stat_value v) λ meta e.
        bind-never (emit_value utf16_encode r.reader v meta) _
          (bind-never (emit_data utf16_encode r.reader v meta.type) _ (emit_data-never v meta.type)
            λ text f g. cc)
          λ line f.
            bind-never (emit_values r utf16_encode values) _ (emit_values-never values)
              λ rest g i. cc

    pub key_text-never : (path : List Bytes) (id : K) → key_text r utf16_encode path id ≢ panic
    unfolding key_text
    key_text-never path id = bind-never (r.values id) _ (never.values id) λ values e.
        bind-never (emit_values r utf16_encode (r.sort_values values)) _
          (emit_values-never (r.sort_values values)) λ text f g. cc
