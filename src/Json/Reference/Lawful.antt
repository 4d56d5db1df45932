-- ===== src/Json/Reference/Lawful.antt =====
-- The assumptions of `Json` hold of the reference library.
use so_pr2_synchronization.Base.{◌≡◌, refl, ap, Option, some, Text, Lacks, subst, arith}
use so_pr2_synchronization.Json.{IsLawful}
use so_pr2_synchronization.Json.Reference.{parse_text, reference}
use so_pr2_synchronization.Json.Reference.Code.{
  Value, obj, num, null, write, read, read-write, write-Lacks,
}
use so_pr2_synchronization.Json.Reference.Fields.{
  get_array, get_object, elements-of_list, find-put, find-remove, dotremove_split,
}

read_written :
    (v : Value) (t : Text) → ◌≡◌ {A = Option Text} (some (write v)) (some t) → parse_text t ≡ some v
unfolding parse_text
read_written v t e =
    let found : read t ≡ some v = subst (λ s. read s ≡ some v) (ground arith) (read-write v) in
    rw (parse_text, found)

written-Lacks : (v : Value) (t : Text) → ◌≡◌ {A = Option Text} (some (write v)) (some t) → Lacks 0 t
written-Lacks v t e = subst (Lacks 0) (ground arith) (write-Lacks v)

pub reference-IsLawful : IsLawful reference
unfolding get_array get_object
reference-IsLawful = record {
  to_int-of_int = λ n h. refl;
  parse-serialize = read_written;
  parse-pretty = read_written;
  serialize-Lacks = written-Lacks;
  get_array-of_array = λ vs. ap some (elements-of_list vs);
  get_object-of_object = λ o. refl;
  get_number-set_number = λ o k j x. rw (find-put o k j (num x)) (ground arith);
  get_object-set_number = λ o k j x. rw (find-put o k j (num x)) (ground arith);
  get_number-set_object = λ o k j c e. rw (find-put o k j (obj c), e);
  get_object-set_object = λ o k j c. rw (find-put o k j (obj c)) (ground arith);
  get_object-remove = λ o k j. rw (find-remove o k j) (ground arith);
  dotremove_lem = λ o c a b ha hb e. dotremove_split o c a b ha e;
  has_value-set_null = λ o k j. rw (find-put o k j null) (ground arith);
  has_value-remove = λ o k j. rw (find-remove o k j) (ground arith);
}
