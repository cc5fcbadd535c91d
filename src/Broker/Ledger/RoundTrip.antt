-- ===== src/Broker/Ledger/RoundTrip.antt =====
-- The lines of a ledger and the records that are read from them.
use mathlib.Core.Path.{subst}
use mathlib.Core.List.{append_assoc, map-append}
use hermes_keel.Base.{
  ℕ, String, ◌≡◌, ◌≢◌, refl, sym, ap, ◌∙◌, ◌⊎◌, inl, inr, true, false, not, ◌||◌, Option, none,
  some, List, [], ◌∷◌, ◌++◌, map, arith, ◌==◌, all, eq_iff, contains_text,
}
use hermes_keel.Base.Result.{Result, ok, rejected, or_raise, ok_injective, >>=-eq-ok, >>-eq-ok}
use hermes_keel.Json.{Value, dict, Fields, get}
use hermes_keel.Json.Lookup.{get-put}
use hermes_keel.Json.Normal.{normal}
use hermes_keel.Json.Codec.{Codec, IsLawful}
use hermes_keel.Broker.Ledger.File.{File, splitlines, parse_frames, check_file, records}
use hermes_keel.Broker.Ledger.Chain.{Ledger, verify_chain}
use hermes_keel.Broker.Ledger.Append.{
  Outcome, lines, previous_hash, chain_body, sealed_record, sealed_tip, next_generation, publish,
  append_chain,
}
use hermes_keel.Broker.Ledger.Verified.{IsSealed, verify_chain-IsSealed}
use hermes_keel.Broker.Ledger.Atomic.{IsAtomic, append_chain-IsAtomic}

some_injective {ℓ} : {A : Type ℓ} (a b : A) → Option.some a ≡ some b → a ≡ b
some_injective a b e = cc

none≢some {ℓ} : {A : Type ℓ} (a : A) → Option.none ≡ some a → ⊥
none≢some a e = cc

splitlines-line :
    (line rest : List ℕ)
    → all (λ b. not (b == 10 || b == 13)) line ≡ true
    → splitlines false (line ++ 10 ∷ rest) ≡ line ∷ splitlines false rest
unfolding splitlines
splitlines-line [] rest h = refl
splitlines-line (b ∷ bs) rest h = ground (arith, splitlines-line bs rest)

snoc_injective {ℓ} : {A : Type ℓ} (xs ys : List A) (x y : A) → xs ++ x ∷ [] ≡ ys ++ y ∷ [] → xs ≡ ys
snoc_injective [] [] x y e = refl
snoc_injective [] (b ∷ []) x y e = cc
snoc_injective [] (b ∷ d ∷ ys) x y e = cc
snoc_injective (a ∷ []) [] x y e = cc
snoc_injective (a ∷ d ∷ xs) [] x y e = cc
snoc_injective (a ∷ xs) (b ∷ ys) x y e =
    let tails : xs ++ x ∷ [] ≡ ys ++ y ∷ [] = cc in
    let heads : a ≡ b = cc in cc (snoc_injective xs ys x y tails)

module _ (c : Codec) (law : IsLawful c) where
  splitlines-lines : (vs : List Value) → splitlines false (lines c vs) ≡ map c.dumps vs
  unfolding lines splitlines
  splitlines-lines [] = refl
  splitlines-lines (v ∷ vs) =
      splitlines-line (c.dumps v) (lines c vs) (law.dumps_line v).1
      ∙ ap (λ ls. c.dumps v ∷ ls) (splitlines-lines vs)

  parse_line :
      (line : List ℕ) (ls : List (List ℕ)) (v : Value) (vs : List Value)
      → line ≢ []
      → c.loads line ≡ some v
      → parse_frames c ls ≡ some vs
      → parse_frames c (line ∷ ls) ≡ some (v ∷ vs)
  unfolding parse_frames
  parse_line [] ls v vs full loaded rest = absurd (full refl)
  parse_line (b ∷ bs) ls v vs full loaded rest = ground (arith, loaded, rest)

  parse_frames-dumps : (vs : List Value) → parse_frames c (map c.dumps vs) ≡ some (map normal vs)
  unfolding parse_frames
  parse_frames-dumps [] = refl
  parse_frames-dumps (v ∷ vs) =
      parse_line (c.dumps v) (map c.dumps vs) (normal v) (map normal vs) (law.dumps_line v).0
        (law.loads-dumps v) (parse_frames-dumps vs)

  -- A file of written lines reads as their values, if it passes the checks of its size and kind.
  records-lines :
      (euid : ℕ) (f : File) (vs : List Value) {rs : List Value}
      → f.content ≡ lines c vs
      → records c euid f ≡ ok rs
      → rs ≡ map normal vs
  unfolding records
  records-lines euid f vs {rs} content h =
      let (_, h1) = >>-eq-ok (check_file c euid f) _ h in
      let (_, h2) = >>-eq-ok _ _ h1 in
      let (_, h3) = >>-eq-ok _ _ h2 in
      let parsed : parse_frames c (splitlines false f.content) ≡ some (map normal vs) =
        ap (λ bs. parse_frames c (splitlines false bs)) content
        ∙ ap (parse_frames c) (splitlines-lines vs)
        ∙ parse_frames-dumps vs in
      sym (
        ok_injective (map normal vs) rs
          (sym (ap (λ o. or_raise o (rejected "malformed-ledger")) parsed) ∙ h3))

  -- the file's records are those that were written, but for the tip
  IsSealed-lines :
      (euid : ℕ) (l : Ledger) (key : List ℕ) (rs vs : List Value) (closing : Value) (f : File)
      → IsSealed c euid l key rs
      → l.file ≡ some f
      → f.content ≡ lines c (vs ++ closing ∷ [])
      → rs ≡ map normal vs
  IsSealed-lines euid l key rs vs closing f s there content =
      let same : s.file ≡ f = some_injective s.file f (sym s.file_found ∙ there) in
      let read =
        records-lines euid s.file (vs ++ closing ∷ []) (ap (λ (g : File). g.content) same ∙ content)
          s.read in
      snoc_injective rs (map normal vs) (dict s.closing) (normal closing)
        (read ∙ map-append normal vs (closing ∷ []))

-- The records that an append adds to: those of the file, if there is one.
abbrev pub prior_records : Codec → ℕ → Ledger → List ℕ → Result (List Value)
prior_records c euid l key = elim l.file [ none ↦ ok [] | some f ↦ verify_chain c euid l key ]

-- What an append makes of the body that it is given.
pub record IsAppended (c : Codec) (euid : ℕ) (l : Ledger) (key : List ℕ) (body rec : Fields)
    (payload : List ℕ) : Type 0 where
  pub prior : List Value
  pub prior_found : prior_records c euid l key ≡ ok prior
  pub previous : Value
  pub is_sealed : rec ≡ sealed_record c key (chain_body c prior previous body)
  pub closing : Value
  pub written_lines : payload ≡ lines c (prior ++ dict rec ∷ closing ∷ [])

pub next_generation-IsAppended :
    (c : Codec) (euid : ℕ) (l : Ledger) (key : List ℕ) (body rec : Fields) (payload : List ℕ)
    → next_generation c euid l key body ≡ ok (rec, payload)
    → IsAppended c euid l key body rec payload
unfolding next_generation
next_generation-IsAppended c euid l key body rec payload h =
    let (prior, found, h1) = >>=-eq-ok (prior_records c euid l key) _ h in
    let (previous, _, h2) = >>=-eq-ok (previous_hash c prior) _ h1 in
    let made = sealed_record c key (chain_body c prior previous body) in
    let (closing, _, h3) = >>=-eq-ok (sealed_tip c l.path key made) _ h2 in
    let same = ok_injective _ (rec, payload) h3 in
    record {
      prior = prior;
      prior_found = found;
      previous = previous;
      is_sealed = sym (ap (λ p. p.0) same);
      closing = dict closing;
      written_lines =
          sym (ap (λ p. p.1) same) ∙ ap (λ p. lines c (prior ++ dict p.0 ∷ dict closing ∷ [])) same;
    }

-- The members of a body that an append leaves alone.
pub get-sealed_record :
    (c : Codec) (key : List ℕ) (prior : List Value) (previous : Value) (body : Fields) (k : String)
    → contains_text k ("previous_hash" ∷ "sequence" ∷ "record_hash" ∷ "mac" ∷ []) ≡ false
    → get k (sealed_record c key (chain_body c prior previous body)) ≡ get k body
unfolding sealed_record
get-sealed_record c key prior previous body k h =
    rw (get-put, get-put, get-put, get-put)
      (ground (
        arith,
        eq_iff "previous_hash" k,
        eq_iff k "previous_hash",
        eq_iff "sequence" k,
        eq_iff k "sequence",
        eq_iff "record_hash" k,
        eq_iff k "record_hash",
        eq_iff "mac" k,
        eq_iff k "mac",
      ))

-- What a later `verify_chain` gives of the generation that an append published, by any user and key.
pub published_records :
    (c : Codec) (euid euid' : ℕ) (l : Ledger) (key key' : List ℕ) (body rec : Fields)
    (payload : List ℕ) (rs : List Value)
    → IsLawful c
    → (a : IsAppended c euid l key body rec payload)
    → verify_chain c euid' (publish c euid payload l) key' ≡ ok rs
    → rs ≡ map normal a.prior ++ normal (dict rec) ∷ []
published_records c euid euid' l key key' body rec payload rs law a found =
    of_seal (verify_chain-IsSealed c euid' l' key' rs found)
  where
    l' : Ledger
    l' = publish c euid payload l

    of_seal :
        ((l'.file ≡ none) × (l'.has_checkpoint ≡ false) × (rs ≡ [])) ⊎ IsSealed c euid' l' key' rs
        → rs ≡ map normal a.prior ++ normal (dict rec) ∷ []
    of_seal (inl (gone, _, _)) = absurd (none≢some _ (sym gone))
    of_seal (inr s) =
        let content =
          a.written_lines
          ∙ ap (lines c) (sym (append_assoc a.prior (dict rec ∷ []) (a.closing ∷ []))) in
        IsSealed-lines c law euid' l' key' rs (a.prior ++ dict rec ∷ []) a.closing _ s refl content
        ∙ map-append normal a.prior (dict rec ∷ [])

-- The record of an append that returned, as the ledger shows it from then on.
pub record IsRecorded (c : Codec) (euid : ℕ) (l l' : Ledger) (key : List ℕ) (body rec : Fields)
    : Type 0 where
  pub prior : List Value
  pub prior_found : prior_records c euid l key ≡ ok prior
  pub found : verify_chain c euid l' key ≡ ok (map normal prior ++ normal (dict rec) ∷ [])
  pub keeps :
      (k : String)
      → contains_text k ("previous_hash" ∷ "sequence" ∷ "record_hash" ∷ "mac" ∷ []) ≡ false
      → get k rec ≡ get k body

-- If `append_chain` returns a record, then every later `verify_chain` of the ledger that it left, until
-- something else is written, returns the earlier records and after them this one, each with its keys
-- sorted; and the record has every member of the body that was appended, but for the four of the chain.
-- The JSON library writes one line, and reads back what it wrote.
pub append_chain-IsRecorded :
    (c : Codec) (euid : ℕ) (outcome : Outcome) (l l' : Ledger) (key : List ℕ) (body rec : Fields)
    → IsLawful c
    → append_chain c euid outcome l key body ≡ (ok rec, l')
    → IsRecorded c euid l l' key body rec
append_chain-IsRecorded c euid outcome l l' key body rec law h =
    ended (
      subst (IsAtomic c euid outcome l key body) h
        (append_chain-IsAtomic c euid outcome l key body))
  where
    verified :
        (payload : List ℕ) (rs : List Value)
        → IsAppended c euid l key body rec payload
        → l' ≡ publish c euid payload l
        → verify_chain c euid l' key ≡ ok rs
        → IsRecorded c euid l l' key body rec
    verified payload rs a at_ found = record {
      prior = a.prior;
      prior_found = a.prior_found;
      found =
          found
          ∙ ap ok (
              published_records c euid euid l key key body rec payload rs law a
                (ap (λ m. verify_chain c euid m key) (sym at_) ∙ found));
      keeps = λ k other.
          ap (get k) a.is_sealed ∙ get-sealed_record c key a.prior a.previous body k other;
    }

    ended : IsAtomic c euid outcome l key body (ok rec, l') → IsRecorded c euid l l' key body rec
    ended (inl (e, raised_, _)) = cc
    ended (inr (made, payload, next, at_, inl (e, raised_))) = cc
    ended (inr (made, payload, next, at_, inr (returned, _, rs, found))) =
        let same = ok_injective rec made returned in
        verified payload rs
          (subst (λ m. IsAppended c euid l key body m payload) (sym same)
            (next_generation-IsAppended c euid l key body made payload next))
          at_ found
