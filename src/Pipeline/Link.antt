-- ===== src/Pipeline/Link.antt =====
-- One stage between two buffers: which ticks it has read, which it has in hand, and which it has put out.
use mathlib.Core.List.{append-nil, append_assoc}
use market_data_processor.Prelude.{◌≡◌, sym, ap, subst, ◌∙◌, arith, List, [], ◌∷◌, ◌++◌}
use market_data_processor.Prelude.Merge.{Merge, Merge-append, Sub, Sub-append, nil, left, right}

module _ {T : Type 0} where
  -- A stage that reads a buffer, selects, and puts out what it has selected, or gives it up. `ins` has been
  -- put into the buffer, `taken` has been read and `x` is still there, `h` is in the stage's hands, `outs`
  -- has been put out, and `lost` has been given up.
  pub record Link (selection : List T → List T) (taken ins x h outs lost : List T) : Type 0 where
    pub queued : ins ≡ taken ++ x
    pub selected : List T
    pub has : selection taken ≡ selected ++ h
    pub split : Merge outs lost selected

  module _ {selection : List T → List T} {taken ins x h outs lost : List T}
      (l : Link selection taken ins x h outs lost) where
    pub Link-feed : (new : List T) → Link selection taken (ins ++ new) (x ++ new) h outs lost
    Link-feed new = record {
      queued = ap (λ y. y ++ new) l.queued ∙ append_assoc taken x new;
      selected = l.selected;
      has = l.has;
      split = l.split;
    }

    pub Link-pop :
        (t : T) (rest new : List T)
        → x ≡ t ∷ rest
        → h ≡ []
        → selection (taken ++ (t ∷ [])) ≡ selection taken ++ new
        → Link selection (taken ++ (t ∷ [])) ins rest new outs lost
    Link-pop t rest new first free more = record {
      queued = l.queued ∙ ap (λ y. taken ++ y) first ∙ sym (append_assoc taken (t ∷ []) rest);
      selected = l.selected;
      has = ground (arith, more, l.has, append-nil l.selected);
      split = l.split;
    }

    -- What is in the hands goes on.
    pub Link-put : (t : T) → h ≡ t ∷ [] → Link selection taken ins x [] (outs ++ (t ∷ [])) lost
    Link-put t holds = record {
      queued = l.queued;
      selected = l.selected ++ (t ∷ []);
      has = l.has ∙ ap (λ y. l.selected ++ y) holds ∙ sym (append-nil (l.selected ++ (t ∷ [])));
      split =
          subst (λ y. Merge (outs ++ (t ∷ [])) y (l.selected ++ (t ∷ []))) (append-nil lost)
            (Merge-append l.split (left t nil));
    }

    -- What is in the hands is given up.
    pub Link-lose : (t : T) → h ≡ t ∷ [] → Link selection taken ins x [] outs (lost ++ (t ∷ []))
    Link-lose t holds = record {
      queued = l.queued;
      selected = l.selected ++ (t ∷ []);
      has = l.has ∙ ap (λ y. l.selected ++ y) holds ∙ sym (append-nil (l.selected ++ (t ∷ [])));
      split =
          subst (λ y. Merge y (lost ++ (t ∷ [])) (l.selected ++ (t ∷ []))) (append-nil outs)
            (Merge-append l.split (right t nil));
    }

    -- What has been put out is, in order, among what the stage selects of all that was put in.
    pub Link-Sub :
        (more : List T)
        → selection (taken ++ x) ≡ selection taken ++ more
        → Sub outs (selection ins)
    Link-Sub more prefix =
        let whole : (l.selected ++ h) ++ more ≡ selection ins =
          ap (λ y. y ++ more) (sym l.has) ∙ sym prefix ∙ ap selection (sym l.queued) in
        subst (λ y. Sub outs y) whole (Sub-append more (Sub-append h (lost, l.split)))

    -- With an empty buffer and empty hands, all that the stage has selected is put out or given up.
    pub Link-settled : x ≡ [] → h ≡ [] → Merge outs lost (selection ins)
    Link-settled empty free =
        let whole : l.selected ≡ selection ins =
          sym (append-nil l.selected)
          ∙ ap (λ y. l.selected ++ y) (sym free)
          ∙ sym l.has
          ∙ ap selection
              (sym (append-nil taken) ∙ ap (λ y. taken ++ y) (sym empty) ∙ sym l.queued) in
        subst (λ y. Merge outs lost y) whole l.split
