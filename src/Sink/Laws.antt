-- ===== src/Sink/Laws.antt =====
-- What the sink writes is what the reader returns.
use mathlib.Core.List.{append-nil, append_assoc}
use mathlib.Core.Path.{subst}
use rag_document_processor.Prelude.{
  ℕ, suc, ◌+◌, ◌≤◌, ◌<◌, ◌≡◌, refl, ap, ◌∙◌, none, some, List, [], ◌∷◌, ◌++◌, map, arith, length,
  length-append,
}
use rag_document_processor.Domain.Exceptions.{ok}
use rag_document_processor.Options.Choices.{Settings}
use rag_document_processor.Pipelines.Stream.{EmbeddedChunk}
use rag_document_processor.Ingest.Ports.{Ports, JobMeta}
use rag_document_processor.Ingest.Process.Emits.{Emits}
use rag_document_processor.Sink.Redis.{Fields, Redis, IsRedis, Codec, IsCodec}
use rag_document_processor.Sink.Emit.{
  stream_key, chunk_fields, done_fields, emit, finalize, clear, with_redis,
}
use rag_document_processor.Sink.Read.{
  ChunkResult, chunk, done, read_chunk, read_done, read_entry, parse_entries, read,
}

module _ {V M : Type 0} (R : Redis) (C : Codec V M) (faithful : IsCodec C) (maxlen : ℕ) where
  -- What the reader makes of an emitted chunk.
  abbrev pub result_of : ℕ → EmbeddedChunk M V → ChunkResult V C.Object
  result_of index c = record {
    index = index;
    text = c.text;
    embedding = c.embedding;
    metadata = faithful.meta_object c.metadata;
  }

  abbrev pub results_from : ℕ → List (EmbeddedChunk M V) → List (ChunkResult V C.Object)
  results_from index [] = []
  results_from index (c ∷ cs) = result_of index c ∷ results_from (suc index) cs

  read_entry-chunk_fields :
      (job_id index : ℕ) (c : EmbeddedChunk M V)
      → read_entry R C index (chunk_fields R C maxlen job_id c) ≡ ok (chunk (result_of index c))
  unfolding read_entry read_chunk
  read_entry-chunk_fields job_id index c =
      let (je, parsed_e, vector) = faithful.read_vector c.embedding in
      let (jm, parsed_m, object) = faithful.read_meta c.metadata in
      rw (parsed_e, parsed_m, vector, object)

  read_entry-done_fields :
      (job_id index n : ℕ)
      → read_entry R C index (done_fields R C maxlen job_id n) ≡ ok (done (faithful.count_object n))
  unfolding read_entry read_done
  read_entry-done_fields job_id index n =
      let (j, parsed, object) = faithful.read_count n in rw (parsed, object)

  parse_entries_chunk :
      (job_id : ℕ) (sofar : List (ChunkResult V C.Object)) (c : EmbeddedChunk M V)
      (entries : List Fields)
      → parse_entries R C sofar none (chunk_fields R C maxlen job_id c ∷ entries)
        ≡ parse_entries R C (sofar ++ result_of (length sofar) c ∷ []) none entries
  unfolding parse_entries
  parse_entries_chunk job_id sofar c entries =
      rw (read_entry-chunk_fields job_id (length sofar) c, parse_entries)

  parse_entries_done :
      (job_id n : ℕ) (sofar : List (ChunkResult V C.Object))
      → parse_entries R C sofar none (done_fields R C maxlen job_id n ∷ [])
        ≡ ok (record { chunks = sofar; finalization_metadata = some (faithful.count_object n) })
  unfolding parse_entries
  parse_entries_done job_id n sofar =
      rw (read_entry-done_fields job_id (length sofar) n, parse_entries)

  pub parse_entries_all :
      (job_id n : ℕ) (sofar : List (ChunkResult V C.Object)) (cs : List (EmbeddedChunk M V))
      → parse_entries R C sofar none
          (map (chunk_fields R C maxlen job_id) cs ++ done_fields R C maxlen job_id n ∷ [])
        ≡ ok (record {
          chunks = sofar ++ results_from (length sofar) cs;
          finalization_metadata = some (faithful.count_object n);
        })
  parse_entries_all job_id n sofar [] = rw append-nil (parse_entries_done job_id n sofar)
  parse_entries_all job_id n sofar (c ∷ cs) =
      let next : length (sofar ++ result_of (length sofar) c ∷ []) ≡ suc (length sofar) =
        omega (arith, length-append {0} sofar (result_of (length sofar) c ∷ [])) in
      parse_entries_chunk job_id sofar c _
      ∙ parse_entries_all job_id n (sofar ++ result_of (length sofar) c ∷ []) cs
      ∙ rw (next, append_assoc)

module _ (P : Ports) (R : Redis) (C : Codec P.Vector JobMeta) (lawful : IsRedis R) (maxlen : ℕ)
    (settings : Settings) where
  xrange-Emits :
      (id : ℕ) (cs : List (EmbeddedChunk JobMeta P.Vector)) (entries : List Fields) (s t : R.State)
      → Emits (with_redis P R C maxlen) settings id cs s t
      → R.xrange (stream_key id) s ≡ ok entries
      → length entries + length cs ≤ maxlen
      → R.xrange (stream_key id) t ≡ ok (entries ++ map (chunk_fields R C maxlen id) cs)
  unfolding emit
  xrange-Emits id [] entries s t same held room = rw (← same, append-nil) held
  xrange-Emits id (c ∷ cs) entries s t (u, added, rest) held room =
      let grown = lawful.xrange-xadd added held (omega arith) in
      let more = chunk_fields R C maxlen id c ∷ [] in
      let counted = length-append {0} entries more in
      subst (λ l. R.xrange (stream_key id) t ≡ ok l)
        (append_assoc entries more (map (chunk_fields R C maxlen id) cs))
        (xrange-Emits id cs (entries ++ more) u t rest grown (omega (arith, counted)))

  -- A stream that is cleared, filled and ended is read as its chunks, numbered from 0, and its end mark.
  pub read-finalize :
      (faithful : IsCodec C) (id n : ℕ) (cs : List (EmbeddedChunk JobMeta P.Vector))
      (s t u v : R.State)
      → clear R C maxlen id s ≡ ok t
      → Emits (with_redis P R C maxlen) settings id cs t u
      → finalize R C maxlen id n u ≡ ok v
      → length cs < maxlen
      → read R C id v
        ≡ ok (record {
          chunks = results_from R C faithful maxlen 0 cs;
          finalization_metadata = some (faithful.count_object n);
        })
  unfolding clear finalize read
  read-finalize faithful id n cs s t u v cleared emitted ended room =
      let filled = xrange-Emits id cs [] t u emitted (lawful.xrange-delete cleared) (omega arith) in
      let whole = lawful.xrange-xadd ended filled (omega (arith, length-map_fields cs)) in
      rw whole (parse_entries_all R C faithful maxlen id n [] cs)
    where
      length-map_fields :
          (cs : List (EmbeddedChunk JobMeta P.Vector))
          → length (map (chunk_fields R C maxlen id) cs) ≡ length cs
      length-map_fields [] = refl
      length-map_fields (c ∷ cs) = ap suc (length-map_fields cs)
