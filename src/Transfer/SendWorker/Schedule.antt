-- ===== src/Transfer/SendWorker/Schedule.antt =====
-- The send worker over any schedule of credit and reads, without an abort.
use mathlib.Core.List.{append_assoc, append-nil}
use unseen_fyi.Prelude.{
  ℕ, suc, ◌+◌, ◌≡◌, ◌⊎◌, inl, inr, refl, sym, ap, ◌∙◌, subst, Bool, true, false, none, some, String,
  List, [], ◌∷◌, ◌++◌, length, ltb, ltb→lt, arith, if◌then◌else◌,
}
use unseen_fyi.Wire.Bytes.{Bytes}
use unseen_fyi.Transfer.Chunks.{consume_into_chunks, all_pieces}
use unseen_fyi.Transfer.Chunks.Cuts.{stream_bytes, all_pieces-Cuts}
use unseen_fyi.Transfer.SendWorker.{
  ready, closed, final, Phase, idle, reading, ended, emitting, WorkerState, initial_state, post,
  emit_piece, end_pipeline, pieces_done, emit_pieces, on_init, pulled, on_pull, emit_read, has_read,
}
use unseen_fyi.Transfer.SendWorker.Order.{
  built, joined, Act, pull, answer, grants, Posted, emit_piece-Posted, Cuts-joined,
}

module _ (digest : Bytes → String) where
  -- The stream answers only when the worker reads; after its last value it says that it is at its end.
  abbrev pub answered : Phase → List Bytes → WorkerState → List Bytes × WorkerState
  answered reading [] s = ([], has_read digest none s)
  answered reading (value ∷ reads) s = (reads, has_read digest (some value) s)
  answered idle reads s = (reads, s)
  answered ended reads s = (reads, s)
  answered (emitting ps is_eof) reads s = (reads, s)

  abbrev pub act : Act → List Bytes × WorkerState → List Bytes × WorkerState
  act pull (reads, s) = (reads, on_pull digest s)
  act answer (reads, s) = answered s.phase reads s

  abbrev pub act_all : List Act → List Bytes × WorkerState → List Bytes × WorkerState
  act_all [] p = p
  act_all (a ∷ acts) p = act_all acts (act a p)

  module _ (tid : Bytes) (all : List Bytes) where
    -- The pieces that are gone, and those that come, are all the pieces; at the end all are gone.
    abbrev pub InPhase : ℕ → List Bytes → WorkerState → Phase → Type 0
    InPhase granted reads s idle = ⊥
    InPhase granted reads s reading =
        (gone : List Bytes) × (gone ++ all_pieces s.pending_tail reads ≡ all)
        × Posted tid granted gone s
    InPhase granted reads s (emitting ps true) =
        (gone : List Bytes) × (gone ++ ps ≡ all) × Posted tid granted gone s
    InPhase granted reads s (emitting ps false) =
        (gone : List Bytes) × (gone ++ (ps ++ all_pieces s.pending_tail reads) ≡ all)
        × Posted tid granted gone s
    InPhase granted reads s ended =
        (s.out ≡ (ready ∷ built tid 0 all ++ final (digest (joined all)) ∷ []) ++ closed ∷ [])

    -- What is to come after the pieces at hand.
    abbrev rest : Bool → List Bytes → Bytes → List Bytes
    rest true reads tail = []
    rest false reads tail = all_pieces tail reads

    abbrev Whole : ℕ → List Bytes → List Bytes → Bool → WorkerState → Type 0
    Whole granted reads ps is_eof s =
        (gone : List Bytes) × (gone ++ (ps ++ rest is_eof reads s.pending_tail) ≡ all)
        × Posted tid granted gone s

    pieces_done-InPhase :
        (granted : ℕ) (reads : List Bytes) (is_eof : Bool) (s : WorkerState)
        → Whole granted reads [] is_eof s
        → InPhase granted reads (pieces_done digest is_eof s) (pieces_done digest is_eof s).phase
    unfolding pieces_done end_pipeline post
    pieces_done-InPhase granted reads false s (gone, whole, h) = (
      gone,
      whole,
      record {
        same_tid = h.same_tid;
        counted = h.counted;
        fed = h.fed;
        paid = h.paid;
        posted = h.posted;
      },
    )
    pieces_done-InPhase granted reads true s (gone, whole, h) =
        let same : gone ≡ all = sym (append-nil gone) ∙ whole in
        ap (λ l. (l ++ final (digest s.hashed) ∷ []) ++ closed ∷ []) h.posted
        ∙ ap (λ b. ((ready ∷ built tid 0 gone) ++ final (digest b) ∷ []) ++ closed ∷ []) h.fed
        ∙ ap (λ l. ((ready ∷ built tid 0 l) ++ final (digest (joined l)) ∷ []) ++ closed ∷ []) same

    abbrev Now : ℕ → List Bytes → WorkerState → Type 0
    Now granted reads s = InPhase granted reads s s.phase

    Now-if :
        (granted : ℕ) (reads : List Bytes) (b : Bool) (x y : WorkerState)
        → (b ≡ true → Now granted reads x)
        → (b ≡ false → Now granted reads y)
        → Now granted reads (if b then x else y)
    Now-if granted reads true x y h k = h refl
    Now-if granted reads false x y h k = k refl

    wait_for_credit :
        (granted : ℕ) (reads ps : List Bytes) (is_eof : Bool) (s : WorkerState)
        → Whole granted reads ps is_eof s
        → InPhase granted reads (record s { phase = emitting ps is_eof }) (emitting ps is_eof)
    wait_for_credit granted reads ps true s (gone, whole, h) = (
      gone,
      ap (λ l. gone ++ l) (sym (append-nil ps)) ∙ whole,
      record {
        same_tid = h.same_tid;
        counted = h.counted;
        fed = h.fed;
        paid = h.paid;
        posted = h.posted;
      },
    )
    wait_for_credit granted reads ps false s (gone, whole, h) = (
      gone,
      whole,
      record {
        same_tid = h.same_tid;
        counted = h.counted;
        fed = h.fed;
        paid = h.paid;
        posted = h.posted;
      },
    )

    emit_pieces-Now :
        (granted : ℕ) (reads ps : List Bytes) (is_eof : Bool) (s : WorkerState)
        → Whole granted reads ps is_eof s
        → Now granted reads (emit_pieces digest ps is_eof s)
    unfolding emit_pieces emit_piece post
    emit_pieces-Now granted reads [] is_eof s h = pieces_done-InPhase granted reads is_eof s h
    emit_pieces-Now granted reads (p ∷ ps) is_eof s (gone, whole, h) =
        Now-if granted reads (ltb 0 s.credit) _ _
          (λ credit. emit_pieces-Now granted reads ps is_eof (emit_piece p s) (
            gone ++ p ∷ [],
            append_assoc gone (p ∷ []) (ps ++ rest is_eof reads s.pending_tail) ∙ whole,
            emit_piece-Posted tid granted gone p s (ltb→lt 0 s.credit credit) h,
          ))
          (λ none_left. wait_for_credit granted reads (p ∷ ps) is_eof s (gone, whole, h))

    -- A credit more.
    granted-Posted :
        (granted : ℕ) (gone : List Bytes) (s : WorkerState)
        → Posted tid granted gone s
        → Posted tid (suc granted) gone (record s { credit = s.credit + 1 })
    granted-Posted granted gone s h = record {
      same_tid = h.same_tid;
      counted = h.counted;
      fed = h.fed;
      paid = one_more s.seq s.credit granted h.paid;
      posted = h.posted;
    }
      where
        one_more :
            (seq credit granted : ℕ) → seq + credit ≡ granted → seq + (credit + 1) ≡ suc granted
        one_more seq credit granted e = omega arith

    pulled-Now :
        (granted : ℕ) (reads : List Bytes) (phase : Phase) (s : WorkerState)
        → s.phase ≡ phase
        → InPhase granted reads s phase
        → Now (suc granted) reads (pulled digest phase (record s { credit = s.credit + 1 }))
    unfolding pulled
    pulled-Now granted reads idle s e h = absurd h
    pulled-Now granted reads ended s e h =
        subst (InPhase (suc granted) reads (record s { credit = s.credit + 1 })) (sym e) h
    pulled-Now granted reads reading s e (gone, whole, h) =
        subst (InPhase (suc granted) reads (record s { credit = s.credit + 1 })) (sym e)
          (gone, whole, granted-Posted granted gone s h)
    pulled-Now granted reads (emitting ps true) s e (gone, whole, h) =
        emit_pieces-Now (suc granted) reads ps true _
          (gone, ap (λ l. gone ++ l) (append-nil ps) ∙ whole, granted-Posted granted gone s h)
    pulled-Now granted reads (emitting ps false) s e (gone, whole, h) =
        emit_pieces-Now (suc granted) reads ps false _
          (gone, whole, granted-Posted granted gone s h)

    AnsweredNow : ℕ → List Bytes × WorkerState → Type 0
    AnsweredNow granted (reads, s) = Now granted reads s

    answered-Now :
        (granted : ℕ) (reads : List Bytes) (phase : Phase) (s : WorkerState)
        → s.phase ≡ phase
        → InPhase granted reads s phase
        → AnsweredNow granted (answered phase reads s)
    unfolding has_read emit_read AnsweredNow all_pieces
    answered-Now granted reads idle s e h = absurd h
    answered-Now granted reads ended s e h = subst (InPhase granted reads s) (sym e) h
    answered-Now granted reads (emitting ps is_eof) s e h =
        subst (InPhase granted reads s) (sym e) h
    answered-Now granted [] reading s e (gone, whole, h) =
        emit_pieces-Now granted [] (consume_into_chunks s.pending_tail [] true).0 true _ (
          gone,
          ap (λ l. gone ++ l) (append-nil _) ∙ whole,
          record {
            same_tid = h.same_tid;
            counted = h.counted;
            fed = h.fed;
            paid = h.paid;
            posted = h.posted;
          },
        )
    answered-Now granted (value ∷ reads) reading s e (gone, whole, h) =
        emit_pieces-Now granted reads (consume_into_chunks s.pending_tail value false).0 false _ (
          gone,
          whole,
          record {
            same_tid = h.same_tid;
            counted = h.counted;
            fed = h.fed;
            paid = h.paid;
            posted = h.posted;
          },
        )

    act_all-Now :
        (acts : List Act) (granted : ℕ) (reads : List Bytes) (s : WorkerState)
        → Now granted reads s
        → AnsweredNow (grants acts + granted) (act_all acts (reads, s))
    unfolding on_pull AnsweredNow
    act_all-Now [] granted reads s h = subst (λ n. Now n reads s) (from_zero granted) h
      where
        from_zero : (n : ℕ) → n ≡ 0 + n
        from_zero n = omega arith
    act_all-Now (pull ∷ acts) granted reads s h =
        subst (λ n. AnsweredNow n (act_all acts (act pull (reads, s))))
          (moved (grants acts) granted)
          (act_all-Now acts (suc granted) reads (on_pull digest s)
            (pulled-Now granted reads s.phase s refl h))
      where
        moved : (a b : ℕ) → a + suc b ≡ suc a + b
        moved a b = omega arith
    act_all-Now (answer ∷ acts) granted reads s h =
        act_all-Now acts granted (act answer (reads, s)).0 (act answer (reads, s)).1
          (answered-Now granted reads s.phase s refl h)

    -- Some pieces are posted, each for a credit, and the others are to come; or all are posted, and
    -- then the checksum of all of them.
    abbrev pub Shown : ℕ → WorkerState → Type 0
    Shown granted s =
        ((gone : List Bytes) × (left : List Bytes) × (gone ++ left ≡ all)
          × (s.out ≡ ready ∷ built tid 0 gone)
          × (length gone + s.credit ≡ granted))
        ⊎ (s.out ≡ (ready ∷ built tid 0 all ++ final (digest (joined all)) ∷ []) ++ closed ∷ [])

    Posted-Shown :
        (granted : ℕ) (gone left : List Bytes) (s : WorkerState)
        → gone ++ left ≡ all
        → Posted tid granted gone s
        → Shown granted s
    Posted-Shown granted gone left s whole h =
        inl (gone, left, whole, h.posted, subst (λ n. n + s.credit ≡ granted) h.counted h.paid)

    phase-Shown :
        (granted : ℕ) (reads : List Bytes) (s : WorkerState) (phase : Phase)
        → InPhase granted reads s phase
        → Shown granted s
    phase-Shown granted reads s idle h = absurd h
    phase-Shown granted reads s ended h = inr h
    phase-Shown granted reads s reading (gone, whole, h) = Posted-Shown granted gone _ s whole h
    phase-Shown granted reads s (emitting ps true) (gone, whole, h) =
        Posted-Shown granted gone _ s whole h
    phase-Shown granted reads s (emitting ps false) (gone, whole, h) =
        Posted-Shown granted gone _ s whole h

  starts-Now :
      (tid : Bytes) (credit : ℕ) (reads : List Bytes)
      → Now tid (all_pieces [] reads) credit reads (on_init tid credit initial_state)
  unfolding on_init
  starts-Now tid credit reads = (
    [],
    refl,
    record { same_tid = refl; counted = refl; fed = refl; paid = no_piece credit; posted = refl },
  )
    where
      no_piece : (n : ℕ) → 0 + n ≡ n
      no_piece n = omega arith

  -- Whenever pulls and answers of the stream arrive, and without an abort: the send worker has posted
  -- 'ready' and the first pieces of the file, in order, numbered from 0, as many as the credit that it
  -- was granted less what it has left; or it has posted all pieces, then the checksum of the whole
  -- file, and has closed.
  pub act_all-Shown :
      (acts : List Act) (tid : Bytes) (credit : ℕ) (reads : List Bytes)
      → Shown tid
          (all_pieces [] reads)
          (grants acts + credit)
          (act_all acts (reads, on_init tid credit initial_state)).1
        × (joined (all_pieces [] reads) ≡ stream_bytes reads)
  unfolding AnsweredNow
  act_all-Shown acts tid credit reads =
      let (reads', s) = act_all acts (reads, on_init tid credit initial_state) in
      (
        phase-Shown tid (all_pieces [] reads) (grants acts + credit) reads' s s.phase (
            act_all-Now tid (all_pieces [] reads) acts credit reads
              (on_init tid credit initial_state) (starts-Now tid credit reads)),
        Cuts-joined (all_pieces-Cuts reads),
      )
