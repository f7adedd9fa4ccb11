-- ===== src/Graph/Chunks.antt =====
-- crates/carminedesktop-graph/src/client.rs: `upload_large`, the upload of a large file in chunks.
-- The service is a parameter: the session, its response to a chunk's request after the requests
-- before it, the newest first, and the item that a response holds.
use carmine_desktop.Common.{
  ℕ, String, zero, suc, ◌+◌, ◌-◌, ◌≤◌, ◌<◌, min, ◌≡◌, refl, Option, none, some, List, [], ◌∷◌, ◌++◌,
  if◌then◌else◌, nat_beq, ltb, length, take, drop, arith, inl, inr, sym, ◌∙◌, ap, if_cases,
}
use carmine_desktop.Graph.Retry.{Result-cases}
use carmine_desktop.Item.{DriveItem, Error, graph_api, Result, ok, err}
use carmine_desktop.Writeback.{Bytes}

abbrev pub upload_chunk_size : ℕ
upload_chunk_size = 10485760

-- A request: the first byte, the last byte and the total of its Content-Range, and its body.
pub record Put : Type 0 where
  pub first : ℕ
  pub last : ℕ
  pub total : ℕ
  pub body : Bytes

abbrev pub no_item : Error
no_item = graph_api 0 "upload completed but no item returned"

module _ {Response : Type 0} (send : List Put → Put → Result Response)
    (json : Response → Result DriveItem) (content : Bytes) where
  abbrev pub next_end : ℕ → ℕ
  next_end offset = min (offset + upload_chunk_size) (length content)

  abbrev pub put_of : ℕ → Put
  put_of offset =
      let end = next_end offset in
      record {
        first = offset;
        last = end - 1;
        total = length content;
        body = take (end - offset) (drop offset content);
      }

  -- The requests made, the newest first, and the result: `none` when the fuel is used up.
  unfoldable pub upload_chunks : ℕ → ℕ → List Put → List Put × Option (Result DriveItem)
  upload_chunks zero offset puts = (puts, none)
  upload_chunks (suc fuel) offset puts =
      let rest = upload_chunks fuel (next_end offset) (put_of offset ∷ puts) in
      if ltb offset (length content)
      then elim (send puts (put_of offset)) [
        | err e ↦ (put_of offset ∷ puts, some (err e))
        | ok resp ↦
            if nat_beq (next_end offset) (length content)
            then (put_of offset ∷ puts, some (json resp))
            else rest
      ]
      else (puts, some (err no_item))

  unfoldable pub upload_large : Result String → List Put × Option (Result DriveItem)
  unfolding upload_chunks
  upload_large (err e) = ([], some (err e))
  upload_large (ok upload_url) = upload_chunks (suc (length content)) 0 []

-- The bytes sent, in order.
abbrev pub body_of : List Put → Bytes
body_of [] = []
body_of (p ∷ ps) = body_of ps ++ p.body

take-nil : (n : ℕ) → take {A = ℕ} n [] ≡ []
take-nil zero = refl
take-nil (suc n) = refl

take-add : (n k : ℕ) (xs : Bytes) → take n xs ++ take k (drop n xs) ≡ take (n + k) xs
take-add zero k xs = ap (λ (n : ℕ). take n xs) (omega arith)
take-add (suc n) zero [] = sym (take-nil (suc n + 0))
take-add (suc n) (suc k) [] = sym (take-nil (suc n + suc k))
take-add (suc n) k (x ∷ xs) =
    let e : suc (n + k) ≡ suc n + k = omega arith in
    ap (λ (l : Bytes). x ∷ l) (take-add n k xs) ∙ ap (λ (m : ℕ). take m (x ∷ xs)) e

take-all : (n : ℕ) (xs : Bytes) → length xs ≤ n → take n xs ≡ xs
take-all zero [] h = refl
take-all zero (x ∷ xs) h = absurd (omega (arith, h))
take-all (suc n) [] h = refl
take-all (suc n) (x ∷ xs) h = ap (λ (l : Bytes). x ∷ l) (take-all n xs (omega (arith, h)))

module _ {Response : Type 0} (send : List Put → Put → Result Response)
    (json : Response → Result DriveItem) (content : Bytes) where
  -- The upload ends; the bytes sent are a part of the content from its start, all of it if the
  -- upload succeeds.
  abbrev pub IsSent : List Put × Option (Result DriveItem) → Type 0
  IsSent (puts, none) = ⊥
  IsSent (puts, some (ok item)) = body_of puts ≡ content
  IsSent (puts, some (err e)) = (k : ℕ) × (body_of puts ≡ take k content)

  body-put_of :
      (offset : ℕ) (puts : List Put)
      → offset ≤ length content
      → body_of puts ≡ take offset content
      → body_of (put_of {Response = Response} send json content offset ∷ puts)
        ≡ take (next_end {Response = Response} send json content offset) content
  body-put_of offset puts h e =
      rw e (take-add offset _ content ∙ ap (λ (n : ℕ). take n content) (omega (arith, h)))

  whole-IsSent :
      (r : Result DriveItem) (puts : List Put) → body_of puts ≡ content → IsSent (puts, some r)
  whole-IsSent (ok item) puts e = e
  whole-IsSent (err x) puts e =
      (length content, e ∙ sym (take-all (length content) content (omega arith)))

  upload_chunks-IsSent :
      (fuel offset : ℕ) (puts : List Put)
      → length content < offset + fuel
      → offset ≤ length content
      → body_of puts ≡ take offset content
      → IsSent (upload_chunks send json content fuel offset puts)
  unfolding upload_chunks
  upload_chunks-IsSent zero offset puts enough h e = absurd (omega (arith, enough, h))
  upload_chunks-IsSent (suc fuel) offset puts enough h e =
      let sent = body-put_of offset puts h e in
      if_cases IsSent (ltb offset (length content))
        (λ more.
          let further : offset < length content = ground (arith, more) in
          let ih =
            upload_chunks-IsSent fuel (next_end send json content offset)
              (put_of send json content offset ∷ puts) (omega (arith, enough, further))
              (omega arith) sent in
          elim (Result-cases (send puts (put_of send json content offset))) [
            | inr (x, f) ↦ rw (f, upload_chunks) (next_end send json content offset, sent)
            | inl (resp, f) ↦
                rw (f, upload_chunks)
                  (if_cases IsSent (nat_beq (next_end send json content offset) (length content))
                    (λ done. whole-IsSent (json resp) (put_of send json content offset ∷ puts) (
                      sent
                      ∙ take-all (next_end send json content offset) content
                          (ground (arith, done))))
                    (λ _. ih))
          ])
        (λ _. (offset, e))

  -- Whatever the service answers, the upload of a large file ends with a result: if it is an item,
  -- the chunks sent are together the content, in order; if it is an error, they are a part of the
  -- content from its start.
  pub upload_large-IsSent :
      (session : Result String) → IsSent (upload_large send json content session)
  unfolding upload_large
  upload_large-IsSent (err e) = (0, refl)
  upload_large-IsSent (ok url) =
      upload_chunks-IsSent (suc (length content)) 0 [] (omega arith) (omega arith) refl
