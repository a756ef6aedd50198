-- ===== src/Tests/Streams.antt =====
-- A Redis server in memory, and a codec whose texts are what they stand for.
use rag_document_processor.Prelude.{
  ℕ, ◌≡◌, ◌≢◌, refl, sym, ap, ◌∙◌, some, List, [], ◌∷◌, ◌++◌, if◌then◌else◌, Bool-cases, inl, inr,
}
use rag_document_processor.Prelude.Text.{Text, codes, text_eq}
use rag_document_processor.Prelude.Text.Laws.{text_eq_refl, text_eq-eq}
use rag_document_processor.Domain.Exceptions.{Result, ok, err, other_error}
use rag_document_processor.Ingest.Ports.{JobMeta}
use rag_document_processor.Sink.Redis.{Fields, Redis, IsRedis, Codec, IsCodec}

abbrev pub Streams : Type 0
Streams = Text → List Fields

abbrev pub store : Text → List Fields → Streams → Streams
store key entries s other = if text_eq other key then entries else s other

abbrev pub memory : Redis
memory = record {
  State = Streams;
  xadd = λ maxlen key fields s. ok (store key (s key ++ fields ∷ []) s);
  delete = λ key s. ok (store key [] s);
  xrange = λ key s. ok (s key);
}

store_self : (key : Text) (entries : List Fields) (s : Streams) → store key entries s key ≡ entries
store_self key entries s = rw (text_eq_refl key)

store_ne :
    (key other : Text) (entries : List Fields) (s : Streams)
    → other ≢ key
    → store key entries s other ≡ s other
store_ne key other entries s ne = elim (Bool-cases (text_eq other key)) [
  | inl same ↦ absurd (ne (text_eq-eq other key same))
  | inr apart ↦ rw apart
]

-- What is read at a key after a command
after : {s t : Streams} → ok s ≡ ok t → (key : Text) → t key ≡ s key
after {s} {t} h key = ap (λ (f : Streams). f key) (sym stored)
  where
    stored : s ≡ t
    stored = cc

held : {xs ys : List Fields} → ok xs ≡ ok ys → xs ≡ ys
held h = cc

pub memory-IsRedis : IsRedis memory
memory-IsRedis = record {
  xrange-delete = λ {key} {s} {t} h. ap ok (after h key ∙ store_self key [] s);
  xrange-xadd = λ {maxlen} {key} {fields} {entries} {s} {t} h k room. ap ok (
      after h key
      ∙ store_self key (s key ++ fields ∷ []) s
      ∙ ap (λ (l : List Fields). l ++ fields ∷ []) (held k));
  xrange-delete_ne =
      λ {key} {other} {s} {t} h ne. ap ok (after h other ∙ store_ne key other [] s ne);
  xrange-xadd_ne = λ {maxlen} {key} {other} {fields} {s} {t} h ne.
      ap ok (after h other ∙ store_ne key other (s key ++ fields ∷ []) s ne);
}

-- Vectors are numbers here; a text is its own JSON.
abbrev first_of : Text → Result ℕ
first_of [] = err (other_error (codes "TypeError"))
first_of (v ∷ vs) = ok v

abbrev pub plain_codec : Codec ℕ JobMeta
plain_codec = record {
  Json = Text;
  Object = Text;
  parse = λ text. ok text;
  object_of = λ json. some json;
  vector_of = first_of;
  no_fields = [];
  print_vector = λ v. v ∷ [];
  print_meta = λ meta. meta.chunk_index ∷ [];
  print_count = λ n. n ∷ [];
}

abbrev pub plain_codec-IsCodec : IsCodec plain_codec
plain_codec-IsCodec = record {
  meta_object = λ meta. meta.chunk_index ∷ [];
  count_object = λ n. n ∷ [];
  read_vector = λ v. (v ∷ [], refl, refl);
  read_meta = λ meta. (meta.chunk_index ∷ [], refl, refl);
  read_count = λ n. (n ∷ [], refl, refl);
}
