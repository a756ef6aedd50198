-- ===== src/Json/RoundTrip.antt =====
-- What `dumps` writes, `loads` reads.
use mathlib.Core.List.{append_assoc}
use rag_document_processor.Prelude.{
  ℕ, zero, suc, ◌≤◌, ◌<◌, ◌≡◌, refl, ap, ◌∙◌, some, List, [], ◌∷◌, ◌++◌, arith, length,
  length-append,
}
use rag_document_processor.Prelude.Text.{Text}
use rag_document_processor.Json.{
  escape, escape_all, quote, dumps_rest, dumps, plain, string_step, onto_read, read_string,
  skip_blanks, onto_items, read_items, loads,
}

-- An escaped code point is read back.
read_string-escape :
    (c : ℕ) (t : Text)
    → read_string plain (escape c ++ t) ≡ onto_read (c ∷ []) (read_string plain t)
unfolding escape read_string string_step
read_string-escape c t = ground arith

read_string-escape_all : (s t : Text) → read_string plain (escape_all s ++ (34 ∷ t)) ≡ some (s, t)
unfolding escape_all
read_string-escape_all [] t = unfold read_string string_step in refl
read_string-escape_all (c ∷ s) t =
    rw (append_assoc (escape c) (escape_all s) (34 ∷ t))
      (rw (read_string-escape c (escape_all s ++ (34 ∷ t))) (rw (read_string-escape_all s t)))

read_string-quote :
    (s t : Text) → read_string plain ((escape_all s ++ (34 ∷ [])) ++ t) ≡ some (s, t)
read_string-quote s t = rw (append_assoc (escape_all s) (34 ∷ []) t) (read_string-escape_all s t)

length-le-dumps_rest : (ss : List Text) → length ss ≤ length (dumps_rest ss)
unfolding dumps_rest
length-le-dumps_rest [] = omega arith
length-le-dumps_rest (s ∷ ss) =
    omega (arith, length-append {0} (quote s) (dumps_rest ss), length-le-dumps_rest ss)

-- The last item of an array, and an item with another one behind it.
read_items_last :
    (fuel : ℕ) (s : Text) → read_items (suc fuel) (quote s ++ (93 ∷ [])) ≡ some (s ∷ [])
unfolding read_items skip_blanks
read_items_last fuel s = rw (read_string-quote s (93 ∷ []))

read_items_more :
    (fuel : ℕ) (s t : Text)
    → read_items (suc fuel) (quote s ++ (44 ∷ 32 ∷ 34 ∷ t))
      ≡ onto_items s (read_items fuel (34 ∷ t))
unfolding read_items skip_blanks
read_items_more fuel s t = rw (read_string-quote s (44 ∷ 32 ∷ 34 ∷ t))

read_items-quote :
    (fuel : ℕ) (s : Text) (ss : List Text)
    → length ss < fuel
    → read_items fuel (quote s ++ dumps_rest ss) ≡ some (s ∷ ss)
unfolding dumps_rest
read_items-quote zero s ss h = elim h [ ]
read_items-quote (suc fuel) s [] h = read_items_last fuel s
read_items-quote (suc fuel) s (r ∷ rs) h =
    read_items_more fuel s _ ∙ ap (onto_items s) (read_items-quote fuel r rs (omega arith))

-- `json.loads(json.dumps(segments)) == segments`, for every list of texts.
pub loads-dumps : (segments : List Text) → loads (dumps segments) ≡ some segments
unfolding loads dumps
loads-dumps [] = refl
loads-dumps (s ∷ ss) =
    read_items-quote (length (quote s ++ dumps_rest ss)) s ss
      (omega (arith, length-append {0} (quote s) (dumps_rest ss), length-le-dumps_rest ss))
