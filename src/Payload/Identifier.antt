-- ===== src/Payload/Identifier.antt =====
-- `payload_identifier`, `payload_token_id` and `payload_user_id` of sub2api-sync/sub2api_sync.py.
use sub2api_gate.Base.{
  ℕ, ◌≤◌, ◌≡◌, ap, ◌∙◌, Bool, true, false, not, ◌&&◌, Option, none, some, List, [], ◌∷◌, arith,
  Text, codes, ◌==◌, nat_eq, text_eq, leb, is_digit, every, exists, All, length, decimal, pos,
  if◌then◌else◌, Raised, value_error, Result, ok, err, ◌>>=◌, ◌⊎◌, inl, inr, >>=-eq-ok,
}
use sub2api_gate.Payload.{Value, Fields, null, int, str, get}

abbrev pub max_safe_identifier : ℕ
max_safe_identifier = 9007199254740991

abbrev invalid_identifier : Raised
invalid_identifier = value_error (codes "invalid identifier")

-- `[1-9][0-9]{0,15}`
unfoldable pub is_identifier_text : Text → Bool
is_identifier_text [] = false
is_identifier_text (c ∷ t) = leb b'1' c && leb c b'9' && every is_digit t && leb (length t) 15

-- The range test behind the branches.
unfoldable pub in_range : ℕ → Result (Option ℕ)
in_range n = if leb 1 n && leb n max_safe_identifier then ok (some n) else err invalid_identifier

-- One round of the loop: `none` where the field is skipped.
unfoldable pub field_identifier : Value → Result (Option ℕ)
unfolding in_range is_identifier_text
field_identifier null = ok none
field_identifier (str t) =
    if t == []
    then ok none
    else if t == codes "0"
    then ok none
    else if is_identifier_text t
    then in_range (decimal t)
    else err invalid_identifier
field_identifier (int (pos n)) = if n == 0 then ok none else in_range n
field_identifier _ = err invalid_identifier

-- The identifiers of the fields, in order; the source keeps them as a set.
unfoldable pub collect : Fields → List Text → Result (List ℕ)
unfolding field_identifier
collect payload [] = ok []
collect payload (name ∷ names) = do
  found ← field_identifier (get name payload)
  rest ← collect payload names
  ok (elim found [ none ↦ rest | some n ↦ n ∷ rest ])

-- The set of identifiers has two elements or more.
abbrev pub conflicting : List ℕ → Bool
conflicting [] = false
conflicting (n ∷ ns) = not (every (λ k. k == n) ns)

abbrev pub first_or_zero : List ℕ → ℕ
first_or_zero [] = 0
first_or_zero (n ∷ ns) = n

unfoldable pub payload_identifier : Fields → List Text → Result ℕ
unfolding collect
payload_identifier payload names = do
  found ← collect payload names
  if conflicting found
      then err (value_error (codes "conflicting identifiers"))
      else ok (first_or_zero found)

abbrev pub token_id_fields : List Text
token_id_fields =
    codes "sub2apiTokenId" ∷ codes "sub2apiApiKeyId" ∷ codes "tokenId" ∷ codes "apiKeyId" ∷ []

abbrev pub user_id_fields : List Text
user_id_fields = codes "sub2apiUserId" ∷ codes "userId" ∷ []

unfoldable pub payload_token_id : Fields → Result ℕ
payload_token_id payload = payload_identifier payload token_id_fields

unfoldable pub payload_user_id : Fields → Result ℕ
payload_user_id payload = payload_identifier payload user_id_fields

-- The field gives no identifier, or the identifier `n`, which is in range.
abbrev pub Agrees : ℕ → Result (Option ℕ) → Type 0
Agrees n (ok none) = Unit
Agrees n (ok (some k)) = (k ≡ n) × (1 ≤ k) × (k ≤ max_safe_identifier)
Agrees n (err e) = ⊥

-- The field gives the identifier `n`.
abbrev pub gives : ℕ → Result (Option ℕ) → Bool
gives n (ok (some k)) = k == n
gives n (ok none) = false
gives n (err e) = false

field_in_range :
    (v : Value) (k : ℕ) → field_identifier v ≡ ok (some k) → (1 ≤ k) × (k ≤ max_safe_identifier)
unfolding field_identifier
field_in_range (str t) k h = ground arith
field_in_range (int (pos n)) k h = ground arith
field_in_range _ k h = cc

Agrees-field :
    (v : Value) (n : ℕ) (found : Option ℕ)
    → field_identifier v ≡ ok found
    → every (λ k. k == n) (elim found [ none ↦ [] | some k ↦ k ∷ [] ]) ≡ true
    → Agrees n (field_identifier v)
Agrees-field v n none e h = rw e tt
Agrees-field v n (some k) e h =
    let (low, high) = field_in_range v k e in rw e (ground arith, low, high)

abbrev single : Option ℕ → List ℕ
single none = []
single (some k) = k ∷ []

collected_parts :
    (found : Option ℕ) (rest ks : List ℕ) (n : ℕ)
    → ok (elim found [ none ↦ rest | some k ↦ k ∷ rest ]) ≡ ok ks
    → every (λ k. k == n) ks ≡ true
    → (every (λ k. k == n) (single found) ≡ true) × (every (λ k. k == n) rest ≡ true)
collected_parts none rest ks n e h = ground arith
collected_parts (some k) rest ks n e h = ground arith

-- The parts of a round of the loop.
collect_parts :
    (payload : Fields) (name : Text) (names : List Text) (ks : List ℕ)
    → collect payload (name ∷ names) ≡ ok ks
    → (found : Option ℕ) × (rest : List ℕ) × (field_identifier (get name payload) ≡ ok found)
      × (collect payload names ≡ ok rest)
      × (ok (elim found [ none ↦ rest | some k ↦ k ∷ rest ]) ≡ ok ks)
unfolding collect
collect_parts payload name names ks h =
    let (found, e, h1) = >>=-eq-ok (field_identifier (get name payload)) _ h in
    let (rest, e1, h2) = >>=-eq-ok (collect payload names) _ h1 in (found, rest, e, e1, h2)

collect-Agrees :
    (payload : Fields) (names : List Text) (n : ℕ) (ks : List ℕ)
    → collect payload names ≡ ok ks
    → every (λ k. k == n) ks ≡ true
    → All (λ name. Agrees n (field_identifier (get name payload))) names
collect-Agrees payload [] n ks h all_n = tt
collect-Agrees payload (name ∷ names) n ks h all_n =
    let (found, rest, e, e1, h2) = collect_parts payload name names ks h in
    let (one, others) = collected_parts found rest ks n h2 all_n in
    (Agrees-field (get name payload) n found e one, collect-Agrees payload names n rest e1 others)

-- A field gives the first identifier that was collected.
collect-gives :
    (payload : Fields) (names : List Text) (n : ℕ) (ns : List ℕ)
    → collect payload names ≡ ok (n ∷ ns)
    → exists (λ name. gives n (field_identifier (get name payload))) names ≡ true
collect-gives payload [] n ns h = unfold collect in cc (h)
collect-gives payload (name ∷ names) n ns h =
    let (found, rest, e, e1, h2) = collect_parts payload name names (n ∷ ns) h in
    go found rest (collect-gives payload names n ns) e e1 h2
  where
    go :
        (found : Option ℕ) (rest : List ℕ)
        → (collect payload names ≡ ok (n ∷ ns)
            → exists (λ name'. gives n (field_identifier (get name' payload))) names ≡ true)
        → field_identifier (get name payload) ≡ ok found
        → collect payload names ≡ ok rest
        → ok (elim found [ none ↦ rest | some k ↦ k ∷ rest ]) ≡ ok (n ∷ ns)
        → exists (λ name'. gives n (field_identifier (get name' payload))) (name ∷ names) ≡ true
    go none rest ih e e1 h2 = rw e (ih (e1 ∙ h2))
    go (some k) rest ih e e1 h2 = rw e (ground arith)

abbrev conflict : List ℕ → Result ℕ
conflict ks =
    if conflicting ks
    then err (value_error (codes "conflicting identifiers"))
    else ok (first_or_zero ks)

unconflicted :
    (ks : List ℕ) (n : ℕ)
    → conflict ks ≡ ok n
    → (every (λ k. k == n) ks ≡ true) × ((n ≡ 0) ⊎ ((ns : List ℕ) × (ks ≡ n ∷ ns)))
unconflicted [] n h = ground arith
unconflicted (k ∷ ks) n h =
    let same : k ≡ n = ground arith in (ground arith, inr (ks, ap (λ (m : ℕ). m ∷ ks) same))

-- An identifier that is returned is the one that every field gives that gives any, each in range;
-- zero is returned only where no field gives one.
pub payload_identifier-Agrees :
    (payload : Fields) (names : List Text) (n : ℕ)
    → payload_identifier payload names ≡ ok n
    → All (λ name. Agrees n (field_identifier (get name payload))) names
      × ((n ≡ 0) ⊎ (exists (λ name. gives n (field_identifier (get name payload))) names ≡ true))
unfolding payload_identifier
payload_identifier-Agrees payload names n h =
    let (ks, e, h1) = >>=-eq-ok (collect payload names) _ h in
    let (same, origin) = unconflicted ks n h1 in
    (
      collect-Agrees payload names n ks e same,
      elim origin [
        | inl none_given ↦ inl none_given
        | inr (ns, head) ↦ inr (collect-gives payload names n ns (e ∙ ap ok head))
      ],
    )
