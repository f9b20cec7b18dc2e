-- ===== src/BlobStore/Keys.antt =====
-- Which blob a key leads to.
use Prim.Native.Char.{Char, code}
use text.Mathlib.TextLemmas.{nil-append, cons-append}
use Prim.Native.String.{◌++◌ as ◌<>◌}
use contexide.Prelude.{
  ℕ, suc, ◌≤◌, ◌≡◌, ◌≢◌, refl, sym, ap, ◌∙◌, inl, inr, String, Bool, true, false, Option, some, ok,
  err, eqb, if◌then◌else◌, string_eq, ◌==◌, ==_iff, Bool-cases, arith,
}
use contexide.HashMap.{get-insert, get-remove}
use contexide.BlobStore.{
  Entry, MemStore, not_found, normalize_key, put_bytes, put_reader, get_bytes, delete, stored,
}

-- A slash, or the end of the text, stands first.
abbrev pub begins_bare : String → Bool
begins_bare String.[] = true
begins_bare (String.◌∷◌ c s) = eqb (code c) 47

abbrev count_chars : String → ℕ
count_chars String.[] = 0
count_chars (String.◌∷◌ c s) = suc (count_chars s)

shorter : (s : String) → count_chars (normalize_key s) ≤ count_chars s
unfolding normalize_key
shorter String.[] = omega arith
shorter (String.◌∷◌ c s) = ground (arith, shorter s)

own_key :
    (namespace rest : String)
    → begins_bare namespace ≡ false
    → normalize_key (namespace <> rest) ≡ namespace <> rest
unfolding normalize_key
own_key String.[] rest named = absurd (cc)
own_key (String.◌∷◌ c s) rest named =
    let e = cons-append c s rest in
    ap normalize_key e
    ∙ ap (λ (b : Bool). if b then normalize_key (s <> rest) else String.◌∷◌ c (s <> rest)) named
    ∙ sym e

stripped_key :
    (c : Char) (rest key : String)
    → key ≡ String.◌∷◌ c rest
    → eqb (code c) 47 ≡ true
    → normalize_key key ≢ key
unfolding normalize_key
stripped_key c rest key e slash same =
    let stripped : normalize_key (String.◌∷◌ c rest) ≡ normalize_key rest =
      ap (λ (b : Bool). if b then normalize_key rest else String.◌∷◌ c rest) slash in
    let longer : count_chars (normalize_key rest) ≡ suc (count_chars rest) =
      ap count_chars (sym stripped ∙ ap normalize_key (sym e) ∙ same ∙ e) in
    omega (arith, shorter rest, longer)

slash_first : (c : Char) × ("/" ≡ String.◌∷◌ c "") × (eqb (code c) 47 ≡ true)
slash_first = (_, refl, refl)

other_key :
    (namespace uuid : String)
    → begins_bare namespace ≡ true
    → normalize_key (namespace <> "/" <> uuid) ≢ namespace <> "/" <> uuid
other_key String.[] uuid bare =
    let (c, e, slash) = slash_first in
    stripped_key c ("" <> uuid) ("" <> "/" <> uuid)
      (nil-append ("/" <> uuid) ∙ ap (λ s. s <> uuid) e ∙ cons-append c "" uuid) slash
other_key (String.◌∷◌ c s) uuid bare =
    stripped_key c (s <> "/" <> uuid) (String.◌∷◌ c s <> "/" <> uuid)
      (cons-append c s ("/" <> uuid)) bare

module _ {Bytes : Type 0} (store : MemStore Bytes) where
  -- Keys that differ in the slashes at their front alone name the same blob: after a blob is put, each
  -- such key gives it and all others give what they gave before.
  pub get_bytes-put_bytes :
      (key : String) (bytes : Bytes) (content_type : Option String) (asked : String)
      → get_bytes (put_bytes store key bytes content_type) asked
        ≡ (if normalize_key key == normalize_key asked then ok bytes else get_bytes store asked)
  unfolding get_bytes put_bytes
  get_bytes-put_bytes key bytes content_type asked = ground (
    arith,
    get-insert (normalize_key key) (normalize_key asked)
        (record { bytes = bytes; content_type = content_type }) store.blobs,
  )

  pub get_bytes-delete :
      (key asked : String)
      → get_bytes (delete store key).1 asked ≡ (
          if normalize_key key == normalize_key asked then err not_found else get_bytes store asked)
  unfolding get_bytes delete
  get_bytes-delete key asked =
      ground (arith, get-remove (normalize_key key) (normalize_key asked) store.blobs)

  -- A blob that is read in is given for the key that the store answers with, unless its namespace is
  -- empty or begins with a slash: then that key gives what it gave before.
  pub get_bytes-put_reader :
      (uuid : String) (buf : Bytes) (content_type : Option String)
      → (key : String) × (next : MemStore Bytes) × (put_reader store uuid (some buf) content_type
          ≡ ok (key, next))
        × (get_bytes next key
            ≡ (if begins_bare store.namespace then get_bytes store key else ok buf))
  unfolding put_reader get_bytes
  get_bytes-put_reader uuid buf content_type =
      let key = store.namespace <> "/" <> uuid in
      let entry : Entry Bytes = record { bytes = buf; content_type = content_type } in
      (
        key,
        stored store key buf content_type,
        refl,
        elim (Bool-cases (begins_bare store.namespace)) [
          | inl bare ↦ ground (
            arith,
            bare,
            other_key store.namespace uuid bare,
            get-insert key (normalize_key key) entry store.blobs,
            ==_iff key (normalize_key key),
          )
          | inr named ↦ ground (
            arith,
            named,
            own_key store.namespace ("/" <> uuid) named,
            get-insert key (normalize_key key) entry store.blobs,
            ==_iff key (normalize_key key),
          )
        ],
      )
