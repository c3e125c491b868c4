-- ===== src/Board/Fields.antt =====
-- What an update of a board item does to its fields.
use nd3x.Prelude.{
  ◌≡◌, refl, inl, inr, subst, String, Option, none, some, List, [], ◌∷◌, Bool-cases, true, ap, ◌∙◌,
  sym,
}
use nd3x.Runs.Operations.{Outcome, ok, raised, ◌>>=◌}
use nd3x.Board.{
  BoardItem, BoardItemUpdate, apply_update, validate_sent, set_sent, set_cleared, or_else,
}
use nd3x.Board.Words.{
  Status, todo, doing, blocked, done, Priority, low, medium, high, urgent, Origin, agent, user,
  is_word, one_of, validate_enum, validate_status, validate_priority, validate_origin,
}

-- A value that is sent is set; a null that is sent changes nothing.
pub data Sent {A : Type 0} : Option (Option A) → A → A → Type 0 where
  not_sent : {a : A} → Sent none a a
  null_sent : {a : A} → Sent (some none) a a
  value_sent : {a v : A} → Sent (some (some v)) a v

-- A null that is sent clears the field.
pub data Cleared {A : Type 0} : Option (Option A) → Option A → Option A → Type 0 where
  not_sent : {a : Option A} → Cleared none a a
  any_sent : {a v : Option A} → Cleared (some v) a v

-- The text is the word of `v`, up to white space around it and its case.
pub data Names {A : Type 0} (text : String) (v : A) : List (String × A) → Type 0 where
  here :
      {word : String} {more : List (String × A)}
      → is_word word text ≡ true
      → Names text v ((word, v) ∷ more)
  there :
      {other : String × A} {more : List (String × A)}
      → Names text v more
      → Names text v (other ∷ more)

-- What is sent as a word sets what the word names.
pub data SentWord {A : Type 0} (words : List (String × A))
    : Option (Option String) → A → A → Type 0 where
  not_sent : {a : A} → SentWord words none a a
  null_sent : {a : A} → SentWord words (some none) a a
  word_sent : {a v : A} {text : String} → Names text v words → SentWord words (some (some text)) a v

abbrev pub statuses : List (String × Status)
statuses = ("todo", todo) ∷ ("doing", doing) ∷ ("blocked", blocked) ∷ ("done", done) ∷ []

abbrev pub priorities : List (String × Priority)
priorities = ("low", low) ∷ ("medium", medium) ∷ ("high", high) ∷ ("urgent", urgent) ∷ []

abbrev pub origins : List (String × Origin)
origins = ("agent", agent) ∷ ("user", user) ∷ []

-- The item after an update, by an actor: the sent fields are set, the others and what cannot be sent
-- are kept.
pub record IsUpdate (fields : BoardItemUpdate) (actor : String) (a b : BoardItem) : Type 0 where
  pub id : b.id ≡ a.id
  pub origin : b.origin ≡ a.origin
  pub workflow_run_id : b.workflow_run_id ≡ a.workflow_run_id
  pub thread_id : b.thread_id ≡ a.thread_id
  pub title : Sent fields.title a.title b.title
  pub description : Cleared fields.description a.description b.description
  pub status : SentWord statuses fields.status a.status b.status
  pub priority : SentWord priorities fields.priority a.priority b.priority
  pub acceptance : Cleared fields.acceptance a.acceptance b.acceptance
  pub depends_on : Sent fields.depends_on a.depends_on b.depends_on
  pub labels : Sent fields.labels a.labels b.labels
  pub result : Cleared fields.result a.result b.result
  pub position : Sent fields.position a.position b.position
  pub updated_by : Names actor b.updated_by origins

Sent-set_sent : {A : Type 0} (f : Option (Option A)) (a : A) → Sent f a (set_sent f a)
Sent-set_sent none a = Sent.not_sent
Sent-set_sent (some none) a = Sent.null_sent
Sent-set_sent (some (some v)) a = Sent.value_sent

Cleared-set_cleared :
    {A : Type 0} (f : Option (Option A)) (a : Option A) → Cleared f a (set_cleared f a)
Cleared-set_cleared none a = Cleared.not_sent
Cleared-set_cleared (some v) a = Cleared.any_sent

module _ {A : Type 0} where
  one_of-Names :
      (words : List (String × A)) (text : String) (o : Option A)
      → one_of words text ≡ ok o
      → (v : A) × (o ≡ some v) × Names text v words
  unfolding one_of
  one_of-Names [] text o h = cc
  one_of-Names ((word, a) ∷ words) text o h = elim (Bool-cases (is_word word text)) [
    | inl e ↦ (a, found (rw (e, one_of) at h), here e)
    | inr e ↦
        let (v, same, n) = one_of-Names words text o (rw (e, one_of) at h) in (v, same, there n)
  ]
    where
      found : ◌≡◌ {A = Outcome (Option A)} (ok (some a)) (ok o) → o ≡ some a
      found h = cc

  SentWord-validate :
      (words : List (String × A)) (f : Option (Option String)) (s : Option (Option A)) (a : A)
      → validate_sent (validate_enum words) f ≡ ok s
      → SentWord words f a (set_sent s a)
  unfolding validate_enum
  SentWord-validate words none s a h =
      let same : none ≡ s = cc in
      subst (λ x. SentWord words none a (set_sent x a)) same SentWord.not_sent
  SentWord-validate words (some none) s a h =
      let same : some none ≡ s = cc in
      subst (λ x. SentWord words (some none) a (set_sent x a)) same SentWord.null_sent
  SentWord-validate words (some (some text)) s a h = word (one_of words text) refl h
    where
      word :
          (m : Outcome (Option A))
          → one_of words text ≡ m
          → (m >>= λ w. ok (some w)) ≡ ok s
          → SentWord words (some (some text)) a (set_sent s a)
      word (raised e) f h = cc
      word (ok o) f h =
          let (v, same, n) = one_of-Names words text o f in
          let is : some (some v) ≡ s = ap some (sym same) ∙ inner h in
          subst (λ x. SentWord words (some (some text)) a (set_sent x a)) is (SentWord.word_sent n)
        where
          inner : ◌≡◌ {A = Outcome (Option (Option A))} (ok (some o)) (ok s) → some o ≡ s
          inner h = cc

-- The fields of an update whose words are valid.
pub apply-IsUpdate :
    (by : Option Origin) (status : Option (Option Status)) (priority : Option (Option Priority))
    (fields : BoardItemUpdate) (actor : String) (item : BoardItem)
    → validate_origin (some actor) ≡ ok by
    → validate_sent validate_status fields.status ≡ ok status
    → validate_sent validate_priority fields.priority ≡ ok priority
    → IsUpdate fields actor item (apply_update status priority fields (or_else by user) item)
unfolding apply_update validate_enum
apply-IsUpdate by status priority fields actor item named s p =
    let (v, same, n) = one_of-Names origins actor by named in
    record {
      id = refl;
      origin = refl;
      workflow_run_id = refl;
      thread_id = refl;
      title = Sent-set_sent fields.title item.title;
      description = Cleared-set_cleared fields.description item.description;
      status = SentWord-validate statuses fields.status status item.status s;
      priority = SentWord-validate priorities fields.priority priority item.priority p;
      acceptance = Cleared-set_cleared fields.acceptance item.acceptance;
      depends_on = Sent-set_sent fields.depends_on item.depends_on;
      labels = Sent-set_sent fields.labels item.labels;
      result = Cleared-set_cleared fields.result item.result;
      position = Sent-set_sent fields.position item.position;
      updated_by = subst (λ x. Names actor (or_else x user) origins) (sym same) n;
    }
