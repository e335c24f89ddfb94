-- ===== src/Types/Encoding/RoundTrip.antt =====
-- Encoding a notebook of pkg/apis/jupyter/v1/types.go and decoding it again gives the notebook.
use jupyter_operator.Common.{
  ℤ, pos, negsuc, zero, suc, String, Option, none, some, List, [], ◌∷◌, ◌≡◌, refl, ap, ◌∙◌, ◌≢◌,
  eq_iff, arith,
}
use jupyter_operator.Kube.{empty_meta}
use jupyter_operator.Kube.Objects.{IngressBackend}
use jupyter_operator.Prog.{value}
use jupyter_operator.Types.{Notebook, NotebookSpec, NotebookStatus}
use jupyter_operator.Types.Json.{
  Json, null, text, first, optional, non_empty_text, non_zero, non_empty_texts, texts, to_list,
  as_value, new_pointer, pointer_to, to_text, to_number, to_texts, get-fields_of,
}
use jupyter_operator.Types.Encoding.{
  Codec, Codecs, spec_fields, status_fields, notebook_fields, encode_spec, encode_status,
  encode_notebook, make_spec, spec_from, make_status, status_from, decode_spec, decode_status,
  make_notebook, notebook_from, decode_notebook, copy,
}

-- A value of a vendored type is decoded from what it is encoded as, which is not `null`.
pub record Inverts {A : Type 0} (c : Codec A) (a : A) : Type 0 where
  pub decode-encode : c.decode (c.encode a) ≡ some a
  pub not_null : c.encode a ≢ null

abbrev pub InvertsPointer : Codec IngressBackend → Option IngressBackend → Type 0
InvertsPointer c none = Unit
InvertsPointer c (some b) = Inverts c b

-- So it is for the metadata of a notebook and for its backend, if it has one.
pub record InvertsFor (codecs : Codecs) (n : Notebook) : Type 0 where
  pub meta : Inverts codecs.meta n.meta
  pub backend : InvertsPointer codecs.backend n.spec.ingress

pointer_to-text : (o : Option String) → pointer_to to_text (first (optional text o) none) ≡ some o
pointer_to-text none = refl
pointer_to-text (some s) = refl

to_list-texts : (packages : List String) → to_list (texts packages) ≡ some packages
to_list-texts [] = refl
to_list-texts (s ∷ rest) = rw (to_list-texts rest) refl

as_value-texts :
    (packages : List String)
    → as_value [] to_texts (first (non_empty_texts packages) none) ≡ some packages
as_value-texts [] = refl
as_value-texts (s ∷ rest) = to_list-texts (s ∷ rest)

as_value-number : (n : ℤ) → as_value (pos 0) to_number (first (non_zero n) none) ≡ some n
as_value-number (pos zero) = refl
as_value-number (pos (suc n)) = refl
as_value-number (negsuc n) = refl

as_value-text : (s : String) → as_value "" to_text (first (non_empty_text s) none) ≡ some s
as_value-text s = ground (arith, eq_iff s "")

-- A value that is not `null` is decoded.
as_value-some :
    {A : Type 0} (zero_value : A) (decode : Json → Option A) (j : Json) (a : A)
    → j ≢ null
    → decode j ≡ some a
    → as_value zero_value decode (some j) ≡ some a
as_value-some zero_value decode null a n e = absurd (n refl)
as_value-some zero_value decode (Json.boolean b) a n e = e
as_value-some zero_value decode (Json.number k) a n e = e
as_value-some zero_value decode (text s) a n e = e
as_value-some zero_value decode (Json.array xs) a n e = e
as_value-some zero_value decode (Json.object fs) a n e = e

pointer_to-some :
    {A : Type 0} (decode : Json → Option A) (j : Json) (a : A)
    → j ≢ null
    → decode j ≡ some a
    → pointer_to decode (some j) ≡ some (some a)
pointer_to-some decode null a n e = absurd (n refl)
pointer_to-some decode (Json.boolean b) a n e = ap new_pointer e
pointer_to-some decode (Json.number k) a n e = ap new_pointer e
pointer_to-some decode (text s) a n e = ap new_pointer e
pointer_to-some decode (Json.array xs) a n e = ap new_pointer e
pointer_to-some decode (Json.object fs) a n e = ap new_pointer e

pointer_to-backend :
    (c : Codec IngressBackend) (o : Option IngressBackend)
    → InvertsPointer c o
    → pointer_to c.decode (first (optional c.encode o) none) ≡ some o
pointer_to-backend c none h = refl
pointer_to-backend c (some b) h = pointer_to-some c.decode (c.encode b) b h.not_null h.decode-encode

module _ (codecs : Codecs) where
  decode_spec-encode_spec :
      (s : NotebookSpec)
      → InvertsPointer codecs.backend s.ingress
      → decode_spec codecs (encode_spec codecs s) ≡ some s
  unfolding decode_spec encode_spec
  decode_spec-encode_spec s inverts =
      ap (spec_from codecs) (get-fields_of (spec_fields codecs s)) ∙ λ i.
      make_spec (pointer_to-text s.flavor i) (some s.gpu) (pointer_to-text s.host i)
        (pointer_to-backend codecs.backend s.ingress inverts i) (as_value-texts s.packages i)
        (pointer_to-text s.password i) (pointer_to-text s.service_account_name i)
        (pointer_to-text s.tls i)

  decode_status-encode_status : (s : NotebookStatus) → decode_status (encode_status s) ≡ some s
  unfolding decode_status encode_status
  decode_status-encode_status s = ap status_from (get-fields_of (status_fields s)) ∙ λ i.
      make_status (as_value-number s.observed_generation i) (some s.phase)

  -- A notebook that is encoded by its tags and decoded again is the same notebook, whichever of its
  -- pointers are nil and whichever of its fields `omitempty` drops, where a nil slice of packages and
  -- an empty one are the same. This supposes that its vendored metadata and ingress backend are
  -- decoded from what they are encoded as, which is not `null`.
  pub decode_notebook-encode_notebook :
      (n : Notebook)
      → InvertsFor codecs n
      → decode_notebook codecs (encode_notebook codecs n) ≡ some n
  unfolding decode_notebook encode_notebook encode_spec encode_status
  decode_notebook-encode_notebook n inverts =
      ap (notebook_from codecs) (get-fields_of (notebook_fields codecs n)) ∙ λ i.
      make_notebook (as_value-text n.kind i) (as_value-text n.api_version i)
        (as_value-some empty_meta codecs.meta.decode (codecs.meta.encode n.meta) n.meta
          inverts.meta.not_null inverts.meta.decode-encode i)
        (decode_spec-encode_spec n.spec inverts.backend i) (decode_status-encode_status n.status i)

  -- So `Copy` does not panic, and gives a notebook that is equal to the one that is copied.
  pub copy_lem : (n : Notebook) → InvertsFor codecs n → copy codecs n ≡ value n
  unfolding copy
  copy_lem n inverts = rw (decode_notebook-encode_notebook n inverts) refl
