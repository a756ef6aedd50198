-- ===== src/Extraction/Fetch.antt =====
-- `HttpUrlFetcher` of http_url_fetcher.py. `urlparse(url).scheme` and the request of httpx are
-- parameters; the request ends with `raise_for_status`.
use mathlib.Core.List.{append-nil, append_assoc}
use rag_document_processor.Prelude.{
  ℕ, ◌+◌, ltb, ◌≤◌, ◌≡◌, refl, sym, ◌∙◌, true, not, Option, none, some, List, [], ◌∷◌, ◌++◌, length,
  length-append, concat, if◌then◌else◌, arith, inl, inr, Bool-cases,
}
use rag_document_processor.Prelude.Int.{ℤ, pos, lt_ℤ}
use rag_document_processor.Prelude.Text.{Text, codes, one_of, strip, before}
use rag_document_processor.Domain.Exceptions.{
  Error, file_too_large, url_fetch, value_error, Result, ok, err, ◌>>=◌, ◌>>◌, guard, >>=-eq-ok,
}
use rag_document_processor.Options.Coerce.{int_of_text}

-- What goes wrong in a request: `httpx.HTTPError`, or any other exception.
pub data Failure : Type 0 where
  http_error : Failure
  raised : Error → Failure

-- The parts of the body come one by one, and then the stream may break.
pub record Response : Type 0 where
  pub content_length : Option Text
  pub content_type : Option Text
  pub parts : List (List ℕ)
  pub broken : Option Failure

-- `except httpx.HTTPError`
abbrev pub as_error : Failure → Error
as_error http_error = url_fetch
as_error (raised e) = e

-- `if cl and int(cl) > self._settings.max_url_fetch_bytes`
unfoldable pub check_length : ℤ → Option Text → Result (Unit {0})
check_length limit none = ok tt
check_length limit (some []) = ok tt
check_length limit (some (c ∷ s)) = elim (int_of_text (strip (c ∷ s))) [
  | none ↦ err (value_error (codes "invalid literal for int()"))
  | some n ↦ guard (not (lt_ℤ limit n)) file_too_large
]

-- The loop over the parts, from the body and the total so far
unfoldable pub read_parts : ℤ → List ℕ → ℕ → List (List ℕ) → Option Failure → Result (List ℕ)
read_parts limit body total [] none = ok body
read_parts limit body total [] (some failure) = err (as_error failure)
read_parts limit body total (part ∷ parts) broken =
    let rest = read_parts limit (body ++ part) (total + length part) parts broken in
    if lt_ℤ limit (pos (total + length part)) then err file_too_large else rest

-- `if ctype: ctype = ctype.split(";")[0].strip()`
abbrev pub plain_ctype : Option Text → Option Text
plain_ctype none = none
plain_ctype (some []) = some []
plain_ctype (some (c ∷ s)) = some (strip (before 59 (c ∷ s)))

unfoldable pub read_response : ℤ → Response → Result (List ℕ × Option Text)
read_response limit response = do
  check_length limit response.content_length
  body ← read_parts limit [] 0 response.parts response.broken
  ok (body, plain_ctype response.content_type)

pub data Reply : Type 0 where
  failure : Failure → Reply
  response : Response → Reply

abbrev pub read_reply : ℤ → Reply → Result (List ℕ × Option Text)
read_reply limit (failure f) = err (as_error f)
read_reply limit (response r) = read_response limit r

unfoldable pub fetch : (Text → Text) → (Text → Reply) → ℤ → Text → Result (List ℕ × Option Text)
fetch scheme get limit url =
    if one_of (scheme url) (codes "http" ∷ codes "https" ∷ [])
    then read_reply limit (get url)
    else err url_fetch

past_limit :
    (limit : ℕ) (body part : List ℕ) (rest : List (List ℕ))
    → ltb limit (length body + length part) ≡ true
    → ltb limit (length (body ++ concat (part ∷ rest))) ≡ true
past_limit limit body part rest over =
    rw (length-append body (part ++ concat rest))
      (rw (length-append part (concat rest)) (ground (arith, over)))

-- A body that comes without a break is read whole if it is within the limit, and else refused.
read_parts-eq :
    (limit : ℕ) (body : List ℕ) (parts : List (List ℕ))
    → length body ≤ limit
    → read_parts (pos limit) body (length body) parts none ≡ (
        if ltb limit (length (body ++ concat parts))
        then err file_too_large
        else ok (body ++ concat parts))
unfolding read_parts
read_parts-eq limit body [] small = rw append-nil (ground (arith, small))
read_parts-eq limit body (part ∷ parts) small =
    elim (Bool-cases (ltb limit (length body + length part))) [
      | inl over ↦ rw (past_limit limit body part parts over) (ground (arith, over))
      | inr within ↦ rw (← append_assoc body part (concat parts)) (
          ground (arith, within, length-append body part, read_parts-eq limit (body ++ part) parts))
    ]

-- What is read is within the limit, however the parts come.
read_parts-bound :
    (limit : ℕ) (body : List ℕ) (parts : List (List ℕ)) (broken : Option Failure) (all : List ℕ)
    → length body ≤ limit
    → read_parts (pos limit) body (length body) parts broken ≡ ok all
    → (length all ≤ limit) × (broken ≡ none) × (all ≡ body ++ concat parts)
unfolding read_parts
read_parts-bound limit body [] none all small read = rw append-nil (ground (arith, small, read))
read_parts-bound limit body [] (some f) all small read = cc
read_parts-bound limit body (part ∷ parts) broken all small read =
    rw (← append_assoc body part (concat parts)) (
      ground (
        arith,
        read,
        length-append body part,
        read_parts-bound limit (body ++ part) parts broken all,
      ))

read_response-eq :
    (limit : ℕ) (r : Response)
    → check_length (pos limit) r.content_length ≡ ok tt
    → r.broken ≡ none
    → read_response (pos limit) r ≡ (
        if ltb limit (length (concat r.parts))
        then err file_too_large
        else ok (concat r.parts, plain_ctype r.content_type))
unfolding read_response
read_response-eq limit r announced whole =
    rw (announced, whole, read_parts-eq limit [] r.parts (omega arith)) (ground arith)

pair_inj :
    {b b' : List ℕ} {c c' : Option Text}
    → ◌≡◌ {A = Result (List ℕ × Option Text)} (ok (b, c)) (ok (b', c'))
    → (b ≡ b') × (c ≡ c')
pair_inj e = (cc, cc)

-- What a reply must be for this body and content type to be read from it.
abbrev Gives : ℕ → Reply → List ℕ → Option Text → Type 0
Gives limit reply body ctype =
    (r : Response) × (reply ≡ response r)
    × (r.broken ≡ none)
    × (body ≡ concat r.parts)
    × (length body ≤ limit)
    × (ctype ≡ plain_ctype r.content_type)

read_reply-Gives :
    (limit : ℕ) (reply : Reply) (body : List ℕ) (ctype : Option Text)
    → read_reply (pos limit) reply ≡ ok (body, ctype)
    → Gives limit reply body ctype
unfolding read_response
read_reply-Gives limit (failure f) body ctype read = cc
read_reply-Gives limit (response r) body ctype read =
    let (u, announced, rest) =
      >>=-eq-ok (check_length (pos limit) r.content_length)
        (λ (_ : Unit {0}). read_parts (pos limit) [] 0 r.parts r.broken >>= λ (whole : List ℕ).
          ok (whole, plain_ctype r.content_type))
        read in
    let (whole, parts, same) =
      >>=-eq-ok (read_parts (pos limit) [] 0 r.parts r.broken)
        (λ (whole : List ℕ). ok (whole, plain_ctype r.content_type)) rest in
    let (small, unbroken, all) =
      read_parts-bound limit [] r.parts r.broken whole (omega arith) parts in
    let (b, c) = pair_inj same in (r, refl, unbroken, sym b ∙ all, rw (sym b) small, sym c)

module _ (scheme : Text → Text) (get : Text → Reply) (limit : ℕ) (url : Text) where
  -- For a limit that is not negative: what is fetched comes from a URL of scheme http or https, is the whole body of a reply that did not
  -- break off, in order, has at most as many bytes as the limit, and has the reply's content type,
  -- trimmed and without its parameters.
  pub fetch-bound :
      (body : List ℕ) (ctype : Option Text)
      → fetch scheme get (pos limit) url ≡ ok (body, ctype)
      → (one_of (scheme url) (codes "http" ∷ codes "https" ∷ []) ≡ true)
        × ((r : Response) × (get url ≡ response r)
            × (r.broken ≡ none)
            × (body ≡ concat r.parts)
            × (length body ≤ limit)
            × (ctype ≡ plain_ctype r.content_type))
  unfolding fetch
  fetch-bound body ctype fetched =
      elim (Bool-cases (one_of (scheme url) (codes "http" ∷ codes "https" ∷ []))) [
        | inl web ↦ (web, read_reply-Gives limit (get url) body ctype (rw web at fetched))
        | inr other ↦ cc (rw other at fetched)
      ]

  -- A whole reply from a URL of scheme http or https, of no announced length beyond the limit, is
  -- fetched if its body is within the limit, and is refused as too large if it is not.
  pub fetch-eq :
      (r : Response)
      → one_of (scheme url) (codes "http" ∷ codes "https" ∷ []) ≡ true
      → get url ≡ response r
      → check_length (pos limit) r.content_length ≡ ok tt
      → r.broken ≡ none
      → fetch scheme get (pos limit) url ≡ (
          if ltb limit (length (concat r.parts))
          then err file_too_large
          else ok (concat r.parts, plain_ctype r.content_type))
  unfolding fetch
  fetch-eq r web got announced whole = rw (web, got) (read_response-eq limit r announced whole)
