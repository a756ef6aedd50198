-- ===== src/Splitters/Windows.antt =====
-- What the windows of the token-aware splitter are, whatever the encoding.
use Prim.Native.Nat.{min, max}
use rag_document_processor.Prelude.{
  ℕ, zero, suc, ◌+◌, ◌-◌, ◌≤◌, ◌<◌, ◌≡◌, refl, sym, ap, ◌∙◌, List, [], ◌∷◌, ◌++◌, map, length, leb,
  take, drop, take-drop, drop-drop, drop-take, length-take, drop_all, arith, Bool-cases, inl, inr,
  All, leb→le, leb-false→lt,
}
use rag_document_processor.Prelude.Text.{Text}
use rag_document_processor.LateChunk.Sentences.{clean}
use rag_document_processor.Splitters.{slice, token_windows, token_split}

module _ {Token : Type 0} where
  -- Each window without some tokens of its front, one window after the other.
  abbrev pub trimmed : List ℕ → List (List Token) → List Token
  trimmed ks [] = []
  trimmed [] (w ∷ ws) = w ++ trimmed [] ws
  trimmed (k ∷ ks) (w ∷ ws) = drop k w ++ trimmed ks ws

  windows_last :
      (max_tokens overlap : ℕ) (tokens : List Token) (fuel start : ℕ)
      → start < length tokens
      → length tokens ≤ start + max_tokens
      → token_windows max_tokens overlap tokens (suc fuel) start
        ≡ slice start (length tokens) tokens ∷ []
  unfolding token_windows
  windows_last max_tokens overlap tokens fuel start inside ends = ground (arith, inside, ends)

  windows_next :
      (max_tokens overlap : ℕ) (tokens : List Token) (fuel start : ℕ)
      → start + max_tokens < length tokens
      → token_windows max_tokens overlap tokens (suc fuel) start
        ≡ slice start (start + max_tokens) tokens
          ∷ token_windows max_tokens overlap tokens fuel
              (max ((start + max_tokens) - overlap) (start + 1))
  unfolding token_windows
  windows_next max_tokens overlap tokens fuel start more = ground (arith, more)

  head_piece :
      (start done end : ℕ) (tokens : List Token)
      → start ≤ done
      → done ≤ end
      → drop (done - start) (slice start end tokens) ≡ take (end - done) (drop done tokens)
  head_piece start done end tokens from to =
      drop-take (done - start) (end - done) (end - start) (drop start tokens)
        (omega (arith, from, to))
      ∙ ap (take (end - done)) (drop-drop (done - start) start done tokens (omega (arith, from)))

  piece_rest :
      (done end : ℕ) (tokens : List Token)
      → done ≤ end
      → take (end - done) (drop done tokens) ++ drop end tokens ≡ drop done tokens
  piece_rest done end tokens to =
      ap (λ r. take (end - done) (drop done tokens) ++ r)
        (sym (drop-drop (end - done) done end tokens (omega (arith, to))))
      ∙ take-drop (end - done) (drop done tokens)

  -- Each window has at most `max_tokens` tokens, and the windows without some front of each, of at
  -- most `overlap` tokens, are these tokens in their order.
  abbrev pub Covered : ℕ → ℕ → List Token → List (List Token) → Type 0
  Covered max_tokens overlap tokens windows =
      All (λ (w : List Token). length w ≤ max_tokens) windows
      × ((ks : List ℕ) × All (λ k. k ≤ overlap) ks × (trimmed ks windows ≡ tokens))

  cover_cons :
      (max_tokens overlap start done end : ℕ) (tokens : List Token) (windows : List (List Token))
      → start ≤ done
      → done ≤ start + overlap
      → done ≤ end
      → end ≤ start + max_tokens
      → Covered max_tokens overlap (drop end tokens) windows
      → Covered max_tokens overlap (drop done tokens) (slice start end tokens ∷ windows)
  cover_cons max_tokens overlap start done end tokens windows a b c d (small, (ks, fronts, rest)) =
      (
        (omega (arith, length-take (end - start) (drop start tokens), d), small),
        (
          (done - start) ∷ ks,
          (omega (arith, a, b), fronts),
          ap (λ r. drop (done - start) (slice start end tokens) ++ r) rest
              ∙ (ap (λ h. h ++ drop end tokens) (head_piece start done end tokens a c)
                  ∙ piece_rest done end tokens c),
        ),
      )

  windows-Covered :
      (max_tokens overlap : ℕ) (tokens : List Token) (fuel start done : ℕ)
      → 1 ≤ max_tokens
      → start ≤ done
      → done ≤ start + overlap
      → done ≤ start + max_tokens
      → done ≤ length tokens
      → start < length tokens
      → length tokens ≤ start + fuel
      → Covered max_tokens overlap
          (drop done tokens)
          (token_windows max_tokens overlap tokens fuel start)
  windows-Covered max_tokens overlap tokens zero start done m a b c d inside enough =
      absurd (omega (arith, inside, enough))
  windows-Covered max_tokens overlap tokens (suc fuel) start done m a b c d inside enough =
      elim (Bool-cases (leb (length tokens) (start + max_tokens))) [
        | inl ends ↦
            let last = leb→le (length tokens) (start + max_tokens) ends in
            rw (windows_last max_tokens overlap tokens fuel start inside last) (
              cover_cons max_tokens overlap start done (length tokens) tokens [] a b d last
                (tt, ([], tt, sym (drop_all (length tokens) tokens (omega arith)))))
        | inr goes ↦
            let more = leb-false→lt (length tokens) (start + max_tokens) goes in
            rw (windows_next max_tokens overlap tokens fuel start more) (
              cover_cons max_tokens overlap start done (start + max_tokens) tokens
                (token_windows max_tokens overlap tokens fuel
                  (max ((start + max_tokens) - overlap) (start + 1)))
                a b c (omega arith)
                (windows-Covered max_tokens overlap tokens fuel
                  (max ((start + max_tokens) - overlap) (start + 1)) (start + max_tokens) m
                  (omega (arith, m)) (omega arith) (omega (arith, m)) (omega (arith, more))
                  (omega (arith, more, m)) (omega (arith, enough))))
      ]

  all_windows-Covered :
      (max_tokens overlap : ℕ) (tokens : List Token)
      → 1 ≤ max_tokens
      → Covered max_tokens overlap tokens
          (token_windows max_tokens overlap tokens (length tokens) 0)
  unfolding token_windows
  all_windows-Covered max_tokens overlap [] m = (tt, ([], tt, refl))
  all_windows-Covered max_tokens overlap (t ∷ ts) m =
      windows-Covered max_tokens overlap (t ∷ ts) (suc (length ts)) 0 0 m (omega arith)
        (omega arith) (omega arith) (omega arith) (omega arith) (omega arith)

  -- Whatever `encode` and `decode` do, and for limits of at least one token: the pieces of the
  -- token-aware splitter are the decoded windows, trimmed and without blank ones; each window has at
  -- most `max_tokens` of the text's tokens; and the windows cover all the tokens in order, where each
  -- repeats at most `overlap` of those before it.
  pub token_split-Covered :
      (encode : Text → List Token) (decode : List Token → Text) (max_tokens overlap : ℕ)
      (text : Text)
      → 1 ≤ max_tokens
      → (windows : List (List Token)) × (token_split encode decode max_tokens overlap text
          ≡ clean (map decode windows))
        × Covered max_tokens overlap (encode text) windows
  unfolding token_split
  token_split-Covered encode decode max_tokens overlap text m = (
    token_windows max_tokens overlap (encode text) (length (encode text)) 0,
    refl,
    all_windows-Covered max_tokens overlap (encode text) m,
  )

  windows_none :
      (max_tokens overlap : ℕ) (tokens : List Token) (fuel start : ℕ)
      → length tokens ≤ start
      → token_windows max_tokens overlap tokens fuel start ≡ []
  unfolding token_windows
  windows_none max_tokens overlap tokens zero start out = refl
  windows_none max_tokens overlap tokens (suc fuel) start out = ground (arith, out)

  -- Where a window begins, two amounts of fuel that reach the end give the same windows.
  windows-fuel :
      (max_tokens overlap : ℕ) (tokens : List Token) (fuel fuel' start : ℕ)
      → length tokens ≤ start + fuel
      → length tokens ≤ start + fuel'
      → token_windows max_tokens overlap tokens fuel start
        ≡ token_windows max_tokens overlap tokens fuel' start
  unfolding token_windows
  windows-fuel max_tokens overlap tokens zero fuel' start enough enough' =
      sym (windows_none max_tokens overlap tokens fuel' start (omega (arith, enough)))
  windows-fuel max_tokens overlap tokens (suc fuel) zero start enough enough' =
      windows_none max_tokens overlap tokens (suc fuel) start (omega (arith, enough'))
  windows-fuel max_tokens overlap tokens (suc fuel) (suc fuel') start enough enough' =
      rw
        (windows-fuel max_tokens overlap tokens fuel fuel'
          (max ((min (start + max_tokens) (length tokens)) - overlap) (start + 1))
          (omega (arith, enough)) (omega (arith, enough')))
        refl

  -- The windows do not depend on the fuel, once there is as much as there are tokens: the loop ends.
  pub token_windows-fuel :
      (max_tokens overlap : ℕ) (tokens : List Token) (extra : ℕ)
      → token_windows max_tokens overlap tokens (length tokens + extra) 0
        ≡ token_windows max_tokens overlap tokens (length tokens) 0
  token_windows-fuel max_tokens overlap tokens extra =
      windows-fuel max_tokens overlap tokens (length tokens + extra) (length tokens) 0 (omega arith)
        (omega arith)

  -- `n` windows of a fixed size, each of which begins one token after the one before it
  abbrev pub one_apart : ℕ → List Token → ℕ → ℕ → List (List Token)
  one_apart size tokens start zero = []
  one_apart size tokens start (suc n) =
      take size (drop start tokens) ∷ one_apart size tokens (start + 1) n

  length-one_apart :
      (size : ℕ) (tokens : List Token) (start n : ℕ) → length (one_apart size tokens start n) ≡ n
  length-one_apart size tokens start zero = refl
  length-one_apart size tokens start (suc n) =
      ground (arith, length-one_apart size tokens (start + 1) n)

  slice-take :
      (start end size : ℕ) (tokens : List Token)
      → end ≡ start + size
      → slice start end tokens ≡ take size (drop start tokens)
  slice-take start end size tokens e = ap (λ n. take n (drop start tokens)) (omega (arith, e))

  windows-one_apart :
      (max_tokens overlap : ℕ) (tokens : List Token) (fuel start n : ℕ)
      → 1 ≤ max_tokens
      → max_tokens ≤ suc overlap
      → start + max_tokens + n ≡ length tokens
      → length tokens ≤ start + fuel
      → token_windows max_tokens overlap tokens fuel start
        ≡ one_apart max_tokens tokens start (suc n)
  windows-one_apart max_tokens overlap tokens zero start n m narrow inside enough =
      absurd (omega (arith, m, inside, enough))
  windows-one_apart max_tokens overlap tokens (suc fuel) start zero m narrow inside enough =
      windows_last max_tokens overlap tokens fuel start (omega (arith, m, inside))
        (omega (arith, inside))
      ∙ ap (λ w. w ∷ [])
          (slice-take start (length tokens) max_tokens tokens (omega (arith, inside)))
  windows-one_apart max_tokens overlap tokens (suc fuel) start (suc n) m narrow inside enough =
      let step : max ((start + max_tokens) - overlap) (start + 1) ≡ start + 1 =
        omega (arith, narrow) in
      windows_next max_tokens overlap tokens fuel start (omega (arith, inside))
      ∙ rw (step, slice-take start (start + max_tokens) max_tokens tokens refl)
          (ap (λ ws. take max_tokens (drop start tokens) ∷ ws)
            (windows-one_apart max_tokens overlap tokens fuel (start + 1) n m narrow
              (omega (arith, inside)) (omega (arith, enough))))

  -- Where the limit is at least one token, at most one more than the overlap, and at most the number
  -- of tokens, the windows are those of `max_tokens` tokens that begin at the first token, the second,
  -- and so on up to the last place for one; there are as many as there are places.
  pub token_windows-one_apart :
      (max_tokens overlap : ℕ) (tokens : List Token)
      → 1 ≤ max_tokens
      → max_tokens ≤ suc overlap
      → max_tokens ≤ length tokens
      → (token_windows max_tokens overlap tokens (length tokens) 0
          ≡ one_apart max_tokens tokens 0 (suc (length tokens - max_tokens)))
        × (length (token_windows max_tokens overlap tokens (length tokens) 0)
            ≡ suc (length tokens - max_tokens))
  token_windows-one_apart max_tokens overlap tokens m narrow long =
      let same =
        windows-one_apart max_tokens overlap tokens (length tokens) 0 (length tokens - max_tokens) m
          narrow (omega (arith, long)) (omega arith) in
      (
        same,
        ap length same ∙ length-one_apart max_tokens tokens 0 (suc (length tokens - max_tokens)),
      )
