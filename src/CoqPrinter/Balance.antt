-- ===== src/CoqPrinter/Balance.antt =====
-- Every piece of CoqPrinter.hpp keeps the depth and the brackets, once for each way to build one.
use cpp2v.Common.{
  arith, ◌*◌, ℕ, suc, ◌+◌, String, ◌≡◌, refl, sym, subst, fun_ext, Bool, true, false, List, [], ◌∷◌,
  ◌++◌, codes, Bool-cases, ==_iff, inl, inr, ◌==◌, if◌then◌else◌, All,
}
use cpp2v.Formatter.{Formatter, Result, ok, err, Printer, skip, bind, cons}
use cpp2v.Formatter.Brackets.{scan, quoted}
use cpp2v.Formatter.Balance.{
  Outcome, stopped, Outcome-bind, Brackets-open, Brackets-close, Moves, Closed, Closed-Moves,
  IsLevel, IsLevel-Brackets, ◌⟫◌, put_codes-Moves, put-Moves, text-Moves, skip-Moves, line-Moves,
  nbsp-Moves, lparen-Moves, rparen-Moves, cons-Moves, tuple_sep-Moves,
}
use cpp2v.CoqPrinter.{
  Maybe, begin, end, type_sort, begin_tuple, end_tuple, next_tuple, line_if, ctor, end_ctor,
  begin_record, end_record, some_, none_, boolean, begin_list, end_list, str, list_loop, list_range,
  cons_if, filter_loop, list_range_filter, with_ctor, with_tuple, with_list, with_record, Line,
  want,
}
use cpp2v.CoqPrinter.Text.{str_lem, doubled}

scan-doubled : (text t : List ℕ) (n : ℕ) → scan (doubled text ++ t) (quoted, n) ≡ scan t (quoted, n)
unfolding scan
scan-doubled [] t n = refl
scan-doubled (c ∷ cs) t n = elim (Bool-cases (c == b'"')) [
  | inl e ↦ rw ((==_iff c b'"').0 e) (scan-doubled cs t n)
  | inr e ↦ rw e (scan-doubled cs t n)
]

-- A literal is level, whatever parentheses and quotes its text has.
literal-IsLevel : (text : List ℕ) → IsLevel (b'"' ∷ (doubled text ++ b'"' ∷ []))
unfolding scan
literal-IsLevel text n = scan-doubled text (b'"' ∷ []) n

module _ {S : Type 0} {d a : ℕ} where
  pub str-Moves : (text : List ℕ) → Moves S d a d a (str text)
  str-Moves text =
      subst (Moves S d a d a) (sym (fun_ext (str_lem text)))
        (put_codes-Moves d _ (IsLevel-Brackets a (literal-IsLevel text)))

  pub line_if-Moves : (b : Bool) → Moves S d a d a (line_if b)
  unfolding line_if
  line_if-Moves true = line-Moves
  line_if-Moves false = skip-Moves

  pub boolean-Moves : (b : Bool) → Moves S d a d a (boolean b)
  unfolding boolean scan
  boolean-Moves true = text-Moves "true" (λ n. refl)
  boolean-Moves false = text-Moves "false" (λ n. refl)

  pub type_sort-Moves : (b : Bool) → Moves S d a d a (type_sort b)
  unfolding type_sort scan
  type_sort-Moves true = text-Moves "Mtype" (λ n. refl)
  type_sort-Moves false = text-Moves "type" (λ n. refl)

  pub none-Moves : Moves S d a d a none_
  unfolding none_ scan
  none-Moves = text-Moves "None" (λ n. refl)

  -- `ctor(name, line)` for a name that is level by evaluation.
  pub ctor-Moves :
      (name : String)
      → IsLevel (codes name)
      → (l : Bool) → Moves S d a (suc d) (suc a) (ctor name l)
  unfolding ctor
  ctor-Moves name h l = line_if-Moves l ⟫ lparen-Moves ⟫ text-Moves name h ⟫ nbsp-Moves

  pub end_ctor-Moves : Moves S (suc d) (suc a) d a end_ctor
  unfolding end_ctor
  end_ctor-Moves = rparen-Moves

  pub some-Moves : Moves S d a (suc d) (suc a) some_
  unfolding some_ scan
  some-Moves = ctor-Moves "Some" (λ n. refl) true

  pub begin_list-Moves : Moves S d a (suc d) (suc a) begin_list
  unfolding begin_list
  begin_list-Moves = lparen-Moves

  pub end_list-Moves : Moves S (suc d) (suc a) d a end_list
  unfolding end_list scan
  end_list-Moves = text-Moves "nil" (λ n. refl) ⟫ rparen-Moves

  pub begin_tuple-Moves : Moves S d a d (suc a) begin_tuple
  unfolding begin_tuple
  begin_tuple-Moves = put-Moves d "(" (Brackets-open a)

  pub end_tuple-Moves : Moves S d (suc a) d a end_tuple
  unfolding end_tuple
  end_tuple-Moves = put-Moves d ")" (Brackets-close a)

  pub next_tuple-Moves : Moves S d a d a next_tuple
  unfolding next_tuple
  next_tuple-Moves = tuple_sep-Moves

  -- A closed printer, wherever it stands.
  pub up : {p : Printer} → Closed S p → Moves S d a d a p
  up h = Closed-Moves d a h

pub with_ctor-Closed :
    {S : Type 0} (name : String)
    → IsLevel (codes name)
    → (l : Bool) {body : Printer} → Closed S body
    → Closed S (with_ctor name l body)
unfolding with_ctor
with_ctor-Closed name h l b = ctor-Moves name h l ⟫ up b ⟫ end_ctor-Moves

pub with_tuple-Closed : {S : Type 0} {body : Printer} → Closed S body → Closed S (with_tuple body)
unfolding with_tuple
with_tuple-Closed b = begin_tuple-Moves ⟫ up b ⟫ end_tuple-Moves

pub with_list-Closed : {S : Type 0} {body : Printer} → Closed S body → Closed S (with_list body)
unfolding with_list
with_list-Closed b = begin_list-Moves ⟫ up b ⟫ end_list-Moves

pub with_record-Closed :
    {S : Type 0} (l : Line) {body : Printer} → Closed S body → Closed S (with_record l body)
unfolding with_record begin_record end_record scan
with_record-Closed l b =
    (line_if-Moves (want l begin) ⟫ text-Moves "{|" (λ n. refl) ⟫ nbsp-Moves)
    ⟫ b
    ⟫ (line_if-Moves (want l end) ⟫ nbsp-Moves ⟫ text-Moves "|}" (λ n. refl))

module _ {ℓ} {A : Type ℓ} {S : Type 0} where
  pub list_loop-Moves :
      (fn : A → Printer) (xs : List A) {d a : ℕ}
      → All (λ x. Closed S (fn x)) xs
      → Moves S d a d a (list_loop fn xs)
  unfolding list_loop
  list_loop-Moves fn [] h = skip-Moves
  list_loop-Moves fn (x ∷ xs) h = up h.0 ⟫ cons-Moves ⟫ list_loop-Moves fn xs h.1

  pub list_range-Closed :
      (fn : A → Printer) (xs : List A) → All (λ x. Closed S (fn x)) xs → Closed S (list_range fn xs)
  unfolding list_range scan
  list_range-Closed fn [] h = text-Moves "nil" (λ n. refl)
  list_range-Closed fn (x ∷ xs) h =
      begin_list-Moves ⟫ list_loop-Moves fn (x ∷ xs) h ⟫ end_list-Moves

-- The printer that `m` is when its answer is dropped.
abbrev pub printed : Maybe → Printer
printed m f = bind (m f) (λ (g, _). ok g)

pub Outcome-answer :
    {S : Type 0} {c d d' a b b' : ℕ} {f : Formatter} (r : Result (Formatter × Bool))
    (q : Bool → Printer)
    → Outcome S c d a b f (bind r (λ (g, _). ok g))
    → ((ans : Bool) (g : Formatter)
        → g.depth ≡ c + 2 * d
        → g.limit ≡ f.limit
        → Outcome S c d' b b' g (q ans g))
    → Outcome S c d' a b' f (bind r (λ (g, ans). q ans g))
Outcome-answer (ok (g, ans)) q h k = Outcome-bind (q ans) h (k ans)
Outcome-answer (err e) q (stopped p s) k = stopped p s

-- A continuation that looks at the answer.
pub answer-Moves :
    {S : Type 0} {d a d' a' : ℕ} (m : Maybe) (q : Bool → Printer)
    → Closed S (printed m)
    → Moves S d a d' a' (q true)
    → Moves S d a d' a' (q false)
    → Moves S d a d' a' (λ f. bind (m f) (λ (g, ans). q ans g))
answer-Moves {d = d} {a = a} m q hm ht hf =
    let hm' = Closed-Moves d a hm in
    record {
      room = hm'.room + (ht.room + hf.room);
      at = λ c f h e. Outcome-answer (m f) q (hm'.at c f (omega arith) e) (elim [
        | true ↦ λ g e' l. ht.at c g (omega arith) e'
        | false ↦ λ g e' l. hf.at c g (omega arith) e'
      ]);
    }

pub cons_if-Moves :
    {S : Type 0} {d a : ℕ} (m : Maybe) → Closed S (printed m) → Moves S d a d a (cons_if m)
unfolding cons_if
cons_if-Moves m h = answer-Moves m (λ b. if b then cons else skip) h cons-Moves skip-Moves

module _ {ℓ} {A : Type ℓ} {S : Type 0} where
  pub filter_loop-Moves :
      (fn : A → Maybe) (xs : List A) {d a : ℕ}
      → All (λ x. Closed S (printed (fn x))) xs
      → Moves S d a d a (filter_loop fn xs)
  unfolding filter_loop
  filter_loop-Moves fn [] h = skip-Moves
  filter_loop-Moves fn (x ∷ xs) h = cons_if-Moves (fn x) h.0 ⟫ filter_loop-Moves fn xs h.1

  -- A filtered list leaves the depth and the brackets as they were, or stops where the printer of an element
  -- may, from every formatter that is far enough below the end of an `unsigned int`, if the printer of each
  -- element does so, whether or not it prints the element.
  pub list_range_filter-Closed :
      (fn : A → Maybe) (xs : List A)
      → All (λ x. Closed S (printed (fn x))) xs
      → Closed S (list_range_filter fn xs)
  unfolding list_range_filter scan
  list_range_filter-Closed fn [] h = text-Moves "nil" (λ n. refl)
  list_range_filter-Closed fn (x ∷ xs) h =
      begin_list-Moves ⟫ filter_loop-Moves fn (x ∷ xs) h ⟫ end_list-Moves
