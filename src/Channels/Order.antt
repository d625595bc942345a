-- ===== src/Channels/Order.antt =====
-- What a stream shows: a prefix of what was sent, in order, and all of it before the end is seen.
use mathlib.Core.Path.{subst}
use mathlib.Core.List.{append-nil}
use kenbun.Prelude.{◌≡◌, refl, sym, ap, ◌∙◌, true, List, [], ◌∷◌, ◌++◌}
use kenbun.Provider.{ChatChunk}
use kenbun.Exchange.{StreamEvent, chunk, closed, problem, cancelled}
use kenbun.Channels.{
  Send, put, report, close_errs, close_chunks, Pipe, new_pipe, Sees, stop, hand, hold, end_errs,
  end_chunks, take_error, take_nil, take_closed, give_up,
}

-- the chunks that a plan puts
abbrev pub puts : {X : Type 0} → List (Send X) → List ChatChunk
puts [] = []
puts (put c ∷ rest) = c ∷ puts rest
puts (report e ∷ rest) = puts rest
puts (close_errs ∷ rest) = puts rest
puts (close_chunks ∷ rest) = puts rest

-- the chunks that events show
abbrev pub shown : {X : Type 0} → List (StreamEvent X) → List ChatChunk
shown [] = []
shown (chunk c ∷ es) = c ∷ shown es
shown (closed ∷ es) = shown es
shown (problem e ∷ es) = shown es
shown (cancelled ∷ es) = shown es

-- the events show the end of the chunks
abbrev pub Ends : {X : Type 0} → List (StreamEvent X) → Type 0
Ends [] = ⊥
Ends (closed ∷ es) = Unit
Ends (chunk c ∷ es) = Ends es
Ends (problem e ∷ es) = Ends es
Ends (cancelled ∷ es) = Ends es

-- no chunk is put after the channel is closed
abbrev pub ClosesLast : {X : Type 0} → List (Send X) → Type 0
ClosesLast [] = Unit
ClosesLast (put c ∷ rest) = ClosesLast rest
ClosesLast (report e ∷ rest) = ClosesLast rest
ClosesLast (close_errs ∷ rest) = ClosesLast rest
ClosesLast (close_chunks ∷ rest) = puts rest ≡ []

-- the plan of a pipe: nothing is left to put once the channel is closed
record IsOrderly {X : Type 0} (p : Pipe X) : Type 0 where
  plan : ClosesLast p.todo
  done : p.chunks_closed ≡ true → puts p.todo ≡ []

no_more_ClosesLast : {X : Type 0} (l : List (Send X)) → puts l ≡ [] → ClosesLast l
no_more_ClosesLast [] e = tt
no_more_ClosesLast (put c ∷ l) e = cc
no_more_ClosesLast (report x ∷ l) e = no_more_ClosesLast l e
no_more_ClosesLast (close_errs ∷ l) e = no_more_ClosesLast l e
no_more_ClosesLast (close_chunks ∷ l) e = e

-- what a trace shows, and what of the plan it leaves
record Shows {X : Type 0} (p : Pipe X) (es : List (StreamEvent X)) : Type 0 where
  left : List ChatChunk
  split : puts p.todo ≡ shown es ++ left
  whole : Ends es → left ≡ []

right_nil : {A : Type 0} (xs ys : List A) → xs ++ ys ≡ [] → ys ≡ []
right_nil [] ys e = e
right_nil (x ∷ xs) ys e = cc

module _ {X : Type 0} where
  -- a send that puts no chunk
  skip :
      {p q : Pipe X} {es : List (StreamEvent X)}
      → puts p.todo ≡ puts q.todo
      → Shows q es
      → Shows p es
  skip e s = record { left = s.left; split = e ∙ s.split; whole = s.whole }

  Sees-Shows : {p : Pipe X} {es : List (StreamEvent X)} → Sees p es → IsOrderly p → Shows p es
  Sees-Shows {p} stop o = record { left = puts p.todo; split = refl; whole = λ h. absurd h }
  Sees-Shows (hand c e r) o =
      let sent = ap puts e in
      let s =
        Sees-Shows r (record {
          plan = subst ClosesLast e o.plan;
          done = λ h. let none_left = o.done h in cc;
        }) in
      record { left = s.left; split = sent ∙ ap (λ cs. c ∷ cs) s.split; whole = s.whole }
  Sees-Shows (hold x e f r) o = skip (ap puts e) (
      Sees-Shows r
        (record { plan = subst ClosesLast e o.plan; done = λ h. sym (ap puts e) ∙ o.done h }))
  Sees-Shows (end_errs e r) o = skip (ap puts e) (
      Sees-Shows r
        (record { plan = subst ClosesLast e o.plan; done = λ h. sym (ap puts e) ∙ o.done h }))
  Sees-Shows (end_chunks {rest = rest} e r) o =
      let last = subst ClosesLast e o.plan in
      skip (ap puts e)
        (Sees-Shows r (record { plan = no_more_ClosesLast rest last; done = λ h. last }))
  Sees-Shows (take_error x e r) o =
      let s = Sees-Shows r (record { plan = o.plan; done = o.done }) in
      record { left = s.left; split = s.split; whole = s.whole }
  Sees-Shows (take_nil e f r) o =
      let s = Sees-Shows r o in record { left = s.left; split = s.split; whole = s.whole }
  Sees-Shows {es = closed ∷ es} (take_closed e r) o =
      let s = Sees-Shows r o in
      record {
        left = s.left;
        split = s.split;
        whole = λ h. right_nil (shown es) s.left (sym s.split ∙ o.done e);
      }
  Sees-Shows (give_up r) o =
      let s = Sees-Shows r o in record { left = s.left; split = s.split; whole = s.whole }

  -- Whatever the handler's `select` picks, it is shown a prefix of the chunks that the goroutine
  -- puts, in order; and if it is shown the end of the chunks, it was shown all of them. The
  -- goroutine puts no chunk after it closes the channel.
  pub Sees-in_order :
      (sends : List (Send X)) (es : List (StreamEvent X))
      → ClosesLast sends
      → Sees (new_pipe sends) es
      → (left : List ChatChunk) × (puts sends ≡ shown es ++ left)
        × (Ends es → puts sends ≡ shown es)
  unfolding new_pipe
  Sees-in_order sends es plan r =
      let s = Sees-Shows r (record { plan = plan; done = λ h. cc }) in
      (
        s.left,
        s.split,
        λ h. s.split ∙ ap (λ cs. shown es ++ cs) (s.whole h) ∙ append-nil (shown es),
      )
