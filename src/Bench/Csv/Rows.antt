-- ===== src/Bench/Csv/Rows.antt =====
-- A row reads back as the texts of its cells.
use tuletorn.Common.{
  ℕ, ◌≡◌, ◌≢◌, refl, ap, sym, ◌∙◌, inl, inr, true, false, List, [], ◌∷◌, ◌++◌, map, All, ◌==◌,
  ==_iff, Bool-cases, append_assoc, append-nil, arith,
}
use tuletorn.Common.Bytes.{Bytes, is_empty}
use tuletorn.Bench.Csv.{
  double_quotes, is_special, escape, Cell, text, number, print_cell, print_cells, cells, print_row,
  split_from, split_csv_row,
}
use tuletorn.Bench.Results.{BenchmarkResult}

-- Nothing, or a comma and more.
abbrev pub Ends : Bytes → Type 0
Ends [] = Unit
Ends (c ∷ s) = c ≡ b','

abbrev pub IsPlain : Bytes → Type 0
IsPlain = All (λ c. (c ≢ b',') × (c ≢ b'"'))

-- One byte that ends no field and opens no quotes.
split_from-plain :
    (cur : Bytes) (c : ℕ) (s : Bytes)
    → c ≢ b','
    → c ≢ b'"'
    → split_from false cur (c ∷ s) ≡ split_from false (cur ++ c ∷ []) s
unfolding split_from
split_from-plain cur c [] nc nq = ground arith
split_from-plain cur c (d ∷ s) nc nq = ground arith

plain_lem :
    (f cur rest : Bytes)
    → IsPlain f
    → split_from false cur (f ++ rest) ≡ split_from false (cur ++ f) rest
plain_lem [] cur rest h = rw (append-nil cur) refl
plain_lem (c ∷ f) cur rest ((nc, nq), h) =
    split_from-plain cur c (f ++ rest) nc nq
    ∙ plain_lem f (cur ++ c ∷ []) rest h
    ∙ ap (λ t. split_from false t rest) (append_assoc cur (c ∷ []) f)

split_from-quoted :
    (cur : Bytes) (c : ℕ) (s : Bytes)
    → c ≢ b'"'
    → split_from true cur (c ∷ s) ≡ split_from true (cur ++ c ∷ []) s
unfolding split_from
split_from-quoted cur c [] nq = ground arith
split_from-quoted cur c (d ∷ s) nq = ground arith

split_from-closed :
    (cur rest : Bytes) → Ends rest → split_from true cur (b'"' ∷ rest) ≡ split_from false cur rest
unfolding split_from
split_from-closed cur [] h = refl
split_from-closed cur (c ∷ s) h = ground (arith, h)

quoted_lem :
    (f cur rest : Bytes)
    → Ends rest
    → split_from true cur (double_quotes f ++ b'"' ∷ rest) ≡ split_from false (cur ++ f) rest
unfolding split_from
quoted_lem [] cur rest h = rw (append-nil cur) (split_from-closed cur rest h)
quoted_lem (c ∷ f) cur rest h = elim (Bool-cases (c == b'"')) [
  | inl e ↦
      let is : c ≡ b'"' = (==_iff c b'"').0 e in
      rw is (
        quoted_lem f (cur ++ b'"' ∷ []) rest h
        ∙ ap (λ t. split_from false t rest) (append_assoc cur (b'"' ∷ []) f))
  | inr e ↦
      rw (e, double_quotes)
        (split_from-quoted cur c (double_quotes f ++ b'"' ∷ rest) (ground arith)
          ∙ quoted_lem f (cur ++ c ∷ []) rest h
          ∙ ap (λ t. split_from false t rest) (append_assoc cur (c ∷ []) f))
]

split_from-opened : (s : Bytes) → split_from false [] (b'"' ∷ s) ≡ split_from true [] s
unfolding split_from
split_from-opened [] = refl
split_from-opened (d ∷ s) = refl

split_from-comma : (cur s : Bytes) → split_from false cur (b',' ∷ s) ≡ cur ∷ split_from false [] s
unfolding split_from
split_from-comma cur [] = refl
split_from-comma cur (d ∷ s) = refl

-- A byte text without the special bytes.
not_special : (f : Bytes) → is_special f ≡ false → IsPlain f
not_special [] h = tt
not_special (c ∷ f) h = ((ground arith, ground arith), not_special f (ground arith))

escape_lem :
    (f rest : Bytes) → Ends rest → split_from false [] (escape f ++ rest) ≡ split_from false f rest
unfolding escape split_from
escape_lem f rest h = elim (Bool-cases (is_special f)) [
  | inl e ↦
      rw (e, escape, append_assoc (double_quotes f) (b'"' ∷ []) rest)
        (split_from-opened (double_quotes f ++ b'"' ∷ rest) ∙ quoted_lem f [] rest h)
  | inr e ↦ rw (e, escape) (plain_lem f [] rest (not_special f e))
]

abbrev pub cell_text : Cell → Bytes
cell_text (text t) = t
cell_text (number n) = n

-- A number is printed without commas and quotes.
abbrev pub IsPrinted : Cell → Type 0
IsPrinted (text t) = Unit
IsPrinted (number n) = IsPlain n

print_cell_lem :
    (c : Cell) (rest : Bytes)
    → IsPrinted c
    → Ends rest
    → split_from false [] (print_cell c ++ rest) ≡ split_from false (cell_text c) rest
print_cell_lem (text t) rest plain h = escape_lem t rest h
print_cell_lem (number n) rest plain h = plain_lem n [] rest plain

print_cells_lem :
    (c : Cell) (cs : List Cell)
    → All IsPrinted (c ∷ cs)
    → split_csv_row (print_cells (c ∷ cs)) ≡ map cell_text (c ∷ cs)
unfolding split_from
print_cells_lem c [] (plain, all) =
    ap (split_from false []) (sym (append-nil (print_cell c))) ∙ print_cell_lem c [] plain tt
print_cells_lem c (d ∷ cs) (plain, all) =
    print_cell_lem c (b',' ∷ print_cells (d ∷ cs)) plain refl
    ∙ split_from-comma (cell_text c) (print_cells (d ∷ cs))
    ∙ ap (◌∷◌ (cell_text c)) (print_cells_lem d cs all)

some_cells_lem :
    (cs : List Cell)
    → is_empty cs ≡ false
    → All IsPrinted cs
    → split_csv_row (print_cells cs) ≡ map cell_text cs
some_cells_lem [] e all = absurd (true≢false e)
  where
    true≢false : true ≢ false
    true≢false e' = cc
some_cells_lem (c ∷ cs) e all = print_cells_lem c cs all

-- Every row reads back as the values of its columns, whatever commas, quotes and line breaks the names
-- have, if numbers are printed without commas and quotes.
pub split_csv_row-print_row :
    {F : Type 0} (show : ℕ → Bytes) (fixed_2 fixed_4 : F → Bytes)
    → ((n : ℕ) → IsPlain (show n))
    → ((a : F) → IsPlain (fixed_2 a))
    → ((a : F) → IsPlain (fixed_4 a))
    → (r : BenchmarkResult F)
    → split_csv_row (print_row show fixed_2 fixed_4 r)
      ≡ map cell_text (cells show fixed_2 fixed_4 r)
unfolding print_row
split_csv_row-print_row show fixed_2 fixed_4 p q s r =
    let printed : All IsPrinted (cells show fixed_2 fixed_4 r) = (
      tt,
      (
        tt,
        (
          p _,
          (
            p _,
            (
              tt,
              (
                p _,
                (
                  p _,
                  (
                    p _,
                    (
                      p _,
                      (
                        p _,
                        (
                          s _,
                          (
                            q _,
                            (
                              s _,
                              (
                                p _,
                                (
                                  p _,
                                  (
                                    p _,
                                    (
                                      p _,
                                      (
                                        p _,
                                        (p _, (p _, (q _, (q _, (p _, (p _, (q _, (q _, tt)))))))),
                                      ),
                                    ),
                                  ),
                                ),
                              ),
                            ),
                          ),
                        ),
                      ),
                    ),
                  ),
                ),
              ),
            ),
          ),
        ),
      ),
    ) in
    some_cells_lem (cells show fixed_2 fixed_4 r) refl printed
