-- ===== src/Expresso/Server/Queries.antt =====
-- The query loop of makeRequest: for which queries it ends, and what it reads of them.
use lisa_lashes_demo.Base.{
  ℕ, zero, suc, ◌+◌, ◌<◌, ◌≡◌, refl, ◌∙◌, sym, true, false, none, some, List, [], ◌∷◌, ◌++◌, arith,
  ◌==◌, length, length-append, Option-cases, inl, inr, subst, ◌≤◌,
}
use lisa_lashes_demo.Base.Text.{Text, is_empty}
use lisa_lashes_demo.Expresso.Libraries.{Brewtils, put}
use lisa_lashes_demo.Expresso.Server.{
  Free, cut, query_value, parse_queries, queries_of, queries_behind, finished, parsed, endless,
}

pub cut-none : (c : ℕ) (t : Text) → Free c t → cut c t ≡ none
unfolding cut
cut-none c [] h = refl
cut-none c (d ∷ t) (h, hs) = rw (cut-none c t hs, h) refl

pub cut-append : (c : ℕ) (s t : Text) → Free c s → cut c (s ++ c ∷ t) ≡ some (s, t)
unfolding cut
cut-append c [] t h =
    let e : (c == c) ≡ true = ground arith in
    elim (Option-cases (cut c t)) [ inl n ↦ rw (n, e) refl | inr (x, n) ↦ rw (n, e) refl ]
cut-append c (d ∷ s) t (h, hs) = rw (cut-append c s t hs, h) refl

is_empty-append : (s t : Text) (c : ℕ) → is_empty (s ++ c ∷ t) ≡ false
is_empty-append [] t c = refl
is_empty-append (d ∷ s) t c = refl

cut-shorter : (c : ℕ) (t s r : Text) → cut c t ≡ some (s, r) → length r < length t
unfolding cut
cut-shorter c [] s r e = ground arith
cut-shorter c (d ∷ t) s r e = elim (Option-cases (cut c t)) [
  | inl n ↦ ground arith
  | inr (found, n) ↦ let ih = cut-shorter c t found.0 found.1 n in ground arith
]

-- "key=value" for each pair, with '&' between them.
unfoldable pub query_text : List (Text × Text) → Text
query_text [] = []
query_text (p ∷ []) = p.0 ++ b'=' ∷ p.1
query_text (p ∷ q ∷ rest) = p.0 ++ b'=' ∷ (p.1 ++ b'&' ∷ query_text (q ∷ rest))

length-query_text : (pairs : List (Text × Text)) → length pairs ≤ length (query_text pairs)
unfolding query_text
length-query_text [] = omega arith
length-query_text (p ∷ []) = omega (arith, length-append p.0 (b'=' ∷ p.1))
length-query_text (p ∷ q ∷ rest) = omega (
  arith,
  length-query_text (q ∷ rest),
  length-append p.0 (b'=' ∷ (p.1 ++ b'&' ∷ query_text (q ∷ rest))),
  length-append p.1 (b'&' ∷ query_text (q ∷ rest)),
)

-- The same with '&' behind each pair, and then another text.
pub query_before : List (Text × Text) → Text → Text
query_before [] t = t
query_before (p ∷ rest) t = p.0 ++ b'=' ∷ (p.1 ++ b'&' ∷ query_before rest t)

-- No key has a '=', no value a '&'.
abbrev pub WellFormed : List (Text × Text) → Type 0
WellFormed [] = Unit
WellFormed (p ∷ rest) = (Free b'=' p.0 × Free b'&' p.1) × WellFormed rest

module _ (lib : Brewtils) where
  -- The map with the decoded pairs, a later one of a key in place of an earlier one.
  unfoldable pub put_all : List (Text × Text) → List (Text × Text) → List (Text × Text)
  put_all [] m = m
  put_all (p ∷ rest) m = put_all rest (put (lib.decode p.0) (lib.decode p.1) m)

  parse_queries-nil : (fuel : ℕ) (m : List (Text × Text)) → parse_queries lib fuel [] m ≡ some m
  unfolding parse_queries
  parse_queries-nil zero m = refl
  parse_queries-nil (suc fuel) m = refl

  parse_queries-turn :
      (fuel : ℕ) (key value rest after : Text) (m : List (Text × Text))
      → Free b'=' key
      → query_value lib (cut b'&' rest) rest ≡ (value, after)
      → parse_queries lib (suc fuel) (key ++ b'=' ∷ rest) m
        ≡ parse_queries lib fuel after (put (lib.decode key) (lib.decode value) m)
  unfolding parse_queries
  parse_queries-turn fuel key value rest after m h e =
      rw (is_empty-append key rest b'=', cut-append b'=' key rest h, e) refl

  out_of_turns :
      (key rest : Text) (m : List (Text × Text)) → parse_queries lib 0 (key ++ b'=' ∷ rest) m ≡ none
  unfolding parse_queries
  out_of_turns key rest m = rw (is_empty-append key rest b'=') refl

  first_value :
      (v t : Text)
      → Free b'&' v
      → query_value lib (cut b'&' (v ++ b'&' ∷ t)) (v ++ b'&' ∷ t) ≡ (v, t)
  first_value v t h = rw (cut-append b'&' v t h) refl

  last_value : (v : Text) → Free b'&' v → query_value lib (cut b'&' v) v ≡ (v, [])
  last_value v h = rw (cut-none b'&' v h) refl

  parse_queries-query_text :
      (pairs m : List (Text × Text)) (fuel : ℕ)
      → WellFormed pairs
      → length pairs ≤ fuel
      → parse_queries lib fuel (query_text pairs) m ≡ some (put_all pairs m)
  unfolding query_text put_all
  parse_queries-query_text [] m fuel h le = parse_queries-nil fuel m
  parse_queries-query_text (p ∷ rest) m zero h le = absurd (omega arith)
  parse_queries-query_text (p ∷ []) m (suc fuel) h le =
      parse_queries-turn fuel p.0 p.1 _ [] m h.0.0 (last_value p.1 h.0.1) ∙ parse_queries-nil fuel _
  parse_queries-query_text (p ∷ q ∷ rest) m (suc fuel) h le =
      parse_queries-turn fuel p.0 p.1 _ (query_text (q ∷ rest)) m h.0.0 (first_value p.1 _ h.0.1)
      ∙ parse_queries-query_text (q ∷ rest) _ fuel h.1 (omega arith)

  -- If a path has well-formed pairs behind its '?', the loop that reads them ends, and the queries
  -- are the decoded pairs, the last one of each key.
  pub queries_of-query_text :
      (path : Text) (pairs : List (Text × Text))
      → Free b'?' path
      → WellFormed pairs
      → queries_of lib (path ++ b'?' ∷ query_text pairs) ≡ parsed (put_all pairs [])
  unfolding queries_of queries_behind finished
  queries_of-query_text path pairs free w =
      let found = cut-append b'?' path (query_text pairs) free in
      let read =
        parse_queries-query_text pairs [] (suc (length (query_text pairs))) w
          (let n = length-query_text pairs in omega arith) in
      rw (found, read) refl

  stuck :
      (fuel : ℕ) (t : Text) (m : List (Text × Text))
      → is_empty t ≡ false
      → cut b'=' t ≡ none
      → parse_queries lib fuel t m ≡ none
  unfolding parse_queries
  stuck zero t m n h = rw n refl
  stuck (suc fuel) t m n h = rw (n, h) (stuck fuel t m n h)

  parse_queries-query_before :
      (pairs m : List (Text × Text)) (t : Text) (fuel : ℕ)
      → WellFormed pairs
      → is_empty t ≡ false
      → Free b'=' t
      → parse_queries lib fuel (query_before pairs t) m ≡ none
  unfolding query_before
  parse_queries-query_before [] m t fuel w n h = stuck fuel t m n (cut-none b'=' t h)
  parse_queries-query_before (p ∷ rest) m t zero w n h = out_of_turns p.0 _ m
  parse_queries-query_before (p ∷ rest) m t (suc fuel) w n h =
      parse_queries-turn fuel p.0 p.1 _ (query_before rest t) m w.0.0 (first_value p.1 _ w.0.1)
      ∙ parse_queries-query_before rest _ t fuel w.1 n h

  after_shorter : (t : Text) → length (query_value lib (cut b'&' t) t).1 ≤ length t
  after_shorter t = elim (Option-cases (cut b'&' t)) [
    | inl e ↦ rw e (omega arith)
    | inr (found, e) ↦ rw e (let h = cut-shorter b'&' t found.0 found.1 e in omega arith)
  ]

  -- After one turn more than the text has characters, the loop has ended or does not end.
  parse_queries_more :
      (fuel n : ℕ) (t : Text) (m : List (Text × Text))
      → length t < fuel
      → parse_queries lib (n + fuel) t m ≡ parse_queries lib fuel t m
  unfolding parse_queries
  parse_queries_more zero n t m h = absurd (omega arith)
  parse_queries_more (suc fuel) n [] m h = parse_queries-nil _ m
  parse_queries_more (suc fuel) n (c ∷ t) m h =
      let turns : suc (n + fuel) ≡ n + suc fuel = omega arith in
      subst (λ (k : ℕ). parse_queries lib k (c ∷ t) m ≡ parse_queries lib (suc fuel) (c ∷ t) m)
        turns
        (elim (Option-cases (cut b'=' (c ∷ t))) [
          | inl e ↦
              stuck (suc (n + fuel)) (c ∷ t) m refl e ∙ sym (stuck (suc fuel) (c ∷ t) m refl e)
          | inr (found, e) ↦
              let shorter = cut-shorter b'=' (c ∷ t) found.0 found.1 e in
              let rest = after_shorter found.1 in
              rw e (
                parse_queries_more fuel n (query_value lib (cut b'&' found.1) found.1).1 _
                  (omega arith))
        ])

  -- If the text behind well-formed pairs is not empty and has no '=', the loop does not end after
  -- any number of turns, and makeRequest with it does not.
  pub queries_of-query_before :
      (path : Text) (pairs : List (Text × Text)) (t : Text) (turns : ℕ)
      → Free b'?' path
      → WellFormed pairs
      → is_empty t ≡ false
      → Free b'=' t
      → (parse_queries lib turns (query_before pairs t) [] ≡ none)
        × (queries_of lib (path ++ b'?' ∷ query_before pairs t) ≡ endless)
  unfolding queries_of queries_behind finished
  queries_of-query_before path pairs t turns free w n h =
      let found = cut-append b'?' path (query_before pairs t) free in
      let never =
        parse_queries-query_before pairs [] t (suc (length (query_before pairs t))) w n h in
      (parse_queries-query_before pairs [] t turns w n h, rw (found, never) refl)
