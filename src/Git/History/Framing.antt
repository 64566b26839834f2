-- ===== src/Git/History/Framing.antt =====
-- git/history.go: what parseLog makes of a log -z in the format of logFormat.
use micawber.Prelude.{
  ==_iff, is_nil-append_cons, is_nil, ap₂, refl, arith, ap, ◌∙◌, map, ◌%◌, false, true, [], length,
  ◌++◌, All, ◌≡◌, ◌∷◌, List, Bytes,
}
use micawber.Go.Text.{split, contains_byte}
use micawber.Go.Text.Split.{split-append, split_single}
use micawber.Core.Errors.{Result, ok}
use micawber.Git.Object.{valid}
use micawber.Git.Object.Framing.{valid-IsWord, contains_byte-IsWord}
use micawber.Git.History.{LogRecord, drop_tail, log_record, log_records, parse_log, log_fields}

-- A commit as it is printed: the text of its time, and what is read of it.
abbrev pub Logged : Type 0
Logged = Bytes × LogRecord

abbrev pub fields_of : Logged → List Bytes
fields_of (stamp, r) = r.commit ∷ r.author.name ∷ r.author.email ∷ stamp ∷ r.message ∷ []

abbrev pub all_fields : List Logged → List Bytes
all_fields [] = []
all_fields (c ∷ cs) = fields_of c ++ all_fields cs

-- Every field ends in a NUL byte.
abbrev pub print_fields : List Bytes → Bytes
print_fields [] = []
print_fields (x ∷ xs) = x ++ (0 ∷ print_fields xs)

abbrev pub print_log : List Logged → Bytes
print_log cs = print_fields (all_fields cs)

-- The commit is an id, no field holds a NUL byte, and the time is what its text reads as.
module _ (parse_time : Bytes → Result Bytes) where
  pub record IsLogged (c : Logged) : Type 0 where
    pub id : valid c.1.commit ≡ true
    pub name : contains_byte 0 c.1.author.name ≡ false
    pub email : contains_byte 0 c.1.author.email ≡ false
    pub stamp : contains_byte 0 c.0 ≡ false
    pub message : contains_byte 0 c.1.message ≡ false
    pub time : parse_time c.0 ≡ ok c.1.when

split-print_fields :
    (xs : List Bytes)
    → All (λ x. contains_byte 0 x ≡ false) xs
    → split 0 (print_fields xs) ≡ xs ++ ([] ∷ [])
split-print_fields [] h = unfold split in refl
split-print_fields (x ∷ xs) h =
    split-append 0 x (print_fields xs)
    ∙ ap₂ (λ a b. a ++ b) (split_single 0 x h.0) (split-print_fields xs h.1)

drop_tail-append : (xs : List Bytes) → drop_tail (xs ++ ([] ∷ [])) ≡ xs
unfolding drop_tail
drop_tail-append [] = refl
drop_tail-append ([] ∷ []) = refl
drop_tail-append ((c ∷ s) ∷ []) = refl
drop_tail-append (x ∷ y ∷ r) = ap (λ l. x ∷ l) (drop_tail-append (y ∷ r))

length-all_fields : (cs : List Logged) → length (all_fields cs) % log_fields ≡ 0
length-all_fields [] = refl
length-all_fields (c ∷ cs) = omega (arith, length-all_fields cs)

module _ (parse_time : Bytes → Result Bytes) where
  without_nul :
      (cs : List Logged)
      → All (IsLogged parse_time) cs
      → All (λ x. contains_byte 0 x ≡ false) (all_fields cs)
  without_nul [] h = tt
  without_nul ((stamp, r) ∷ cs) h =
      let id = contains_byte-IsWord 0 r.commit refl (valid-IsWord r.commit h.0.id).1 in
      (id, (h.0.name, (h.0.email, (h.0.stamp, (h.0.message, without_nul cs h.1)))))

  log_records-fields :
      (cs : List Logged)
      → All (IsLogged parse_time) cs
      → log_records parse_time (all_fields cs) ≡ ok (map (λ c. c.1) cs)
  unfolding log_records log_record
  log_records-fields [] h = refl
  log_records-fields ((stamp, r) ∷ cs) h =
      rw (h.0.id, h.0.time, log_records-fields cs h.1, log_records, log_record) refl

  parse_log-parts :
      (out : Bytes) (parts : List Bytes) {r : Result (List LogRecord)}
      → is_nil out ≡ false
      → drop_tail (split 0 out) ≡ parts
      → length parts % log_fields ≡ 0
      → log_records parse_time parts ≡ r
      → parse_log parse_time out ≡ r
  unfolding parse_log
  parse_log-parts out parts some_bytes split_up whole read =
      rw (some_bytes, split_up, (==_iff (length parts % log_fields) 0).1 whole, parse_log) read

  -- Of commits with an id that git prints and no NUL byte in any field, each with a time that
  -- time.Parse reads: parseLog of the log, in which a NUL byte ends each of five fields,
  -- returns the commits, in order.
  pub parse_log-print :
      (cs : List Logged)
      → All (IsLogged parse_time) cs
      → parse_log parse_time (print_log cs) ≡ ok (map (λ c. c.1) cs)
  parse_log-print [] h = unfold parse_log in refl
  parse_log-print (c ∷ cs) h =
      let fields = all_fields (c ∷ cs) in
      let parts : drop_tail (split 0 (print_log (c ∷ cs))) ≡ fields =
        ap drop_tail (split-print_fields fields (without_nul (c ∷ cs) h))
        ∙ drop_tail-append fields in
      parse_log-parts (print_log (c ∷ cs)) fields (is_nil-append_cons c.1.commit 0 _) parts
        (length-all_fields (c ∷ cs)) (log_records-fields (c ∷ cs) h)
