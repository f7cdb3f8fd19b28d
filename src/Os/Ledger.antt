-- ===== src/Os/Ledger.antt =====
-- What a list of system calls acquires and gives back.
use low_latency_event_engine.Base.{
  ◌≡◌, refl, sym, ap, ap₂, ◌∙◌, ℕ, List, [], ◌∷◌, ◌++◌, reverse, Option, none, some,
}
use mathlib.Core.List.{append_assoc, append-nil}
use low_latency_event_engine.Os.{
  Reply, returned, Name, Call, created, opened, mapped, unmapped, closed_descriptor, unlinked,
  socket_opened,
}

abbrev pub collect : {A : Type 0} → (Call → List A) → List Call → List A
collect f [] = []
collect f (c ∷ cs) = f c ++ collect f cs

pub collect-append :
    {A : Type 0} (f : Call → List A) (cs ds : List Call)
    → collect f (cs ++ ds) ≡ collect f cs ++ collect f ds
collect-append f [] ds = refl
collect-append f (c ∷ cs) ds =
    ap (λ xs. f c ++ xs) (collect-append f cs ds)
    ∙ sym (append_assoc (f c) (collect f cs) (collect f ds))

abbrev pub opens_one : Call → List ℕ
opens_one (created name (returned d)) = d ∷ []
opens_one (opened name (returned d)) = d ∷ []
opens_one (socket_opened (returned d)) = d ∷ []
opens_one other = []

abbrev pub closes_one : Call → List ℕ
closes_one (closed_descriptor d) = d ∷ []
closes_one other = []

abbrev pub creates_one : Call → List Name
creates_one (created name (returned d)) = name ∷ []
creates_one other = []

abbrev pub unlinks_one : Call → List Name
unlinks_one (unlinked name r) = name ∷ []
unlinks_one other = []

abbrev pub maps_one : Call → List ℕ
maps_one (mapped d size (returned a)) = a ∷ []
maps_one other = []

abbrev pub unmaps_one : Call → List ℕ
unmaps_one (unmapped a size r) = a ∷ []
unmaps_one other = []

abbrev pub unlink_results_one : Call → List (Name × Reply)
unlink_results_one (unlinked name r) = (name, r) ∷ []
unlink_results_one other = []

abbrev pub unmap_results_one : Call → List (ℕ × Reply)
unmap_results_one (unmapped a size r) = (a, r) ∷ []
unmap_results_one other = []

-- The descriptors that the calls open, and those that they close, in order.
abbrev pub opens : List Call → List ℕ
opens = collect opens_one

abbrev pub closes : List Call → List ℕ
closes = collect closes_one

-- The names that the calls create, and those on which they call `shm_unlink`, whatever it returns.
abbrev pub creates : List Call → List Name
creates = collect creates_one

abbrev pub unlinks : List Call → List Name
unlinks = collect unlinks_one

-- The addresses that the calls map, and those on which they call `munmap`, whatever it returns.
abbrev pub maps : List Call → List ℕ
maps = collect maps_one

abbrev pub unmaps : List Call → List ℕ
unmaps = collect unmaps_one

-- The `shm_unlink` calls and the `munmap` calls, each with what it returns.
abbrev pub unlink_results : List Call → List (Name × Reply)
unlink_results = collect unlink_results_one

abbrev pub unmap_results : List Call → List (ℕ × Reply)
unmap_results = collect unmap_results_one

-- One call on each, all with the same reply.
abbrev pub answered : {A : Type 0} → Reply → List A → List (A × Reply)
answered reply [] = []
answered reply (x ∷ xs) = (x, reply) ∷ answered reply xs

-- A descriptor or an address, if there is one, as a list.
abbrev pub as_list : Option ℕ → List ℕ
as_list none = []
as_list (some d) = d ∷ []

-- All that a list of calls acquires and gives back.
pub record Amounts (calls : List Call) (opened closed mapped : List ℕ) (unmapped : List (ℕ × Reply))
    (made : List Name) (removed : List (Name × Reply)) : Type 0 where
  pub opening : opens calls ≡ opened
  pub closing : closes calls ≡ closed
  pub mapping : maps calls ≡ mapped
  pub unmapping : unmap_results calls ≡ unmapped
  pub making : creates calls ≡ made
  pub removing : unlink_results calls ≡ removed

pub Amounts_lem :
    (calls : List Call)
    → Amounts calls
        (opens calls)
        (closes calls)
        (maps calls)
        (unmap_results calls)
        (creates calls)
        (unlink_results calls)
Amounts_lem calls = record {
  opening = refl;
  closing = refl;
  mapping = refl;
  unmapping = refl;
  making = refl;
  removing = refl;
}

pub Amounts-append :
    {cs ds : List Call} {o c m o' c' m' : List ℕ} {u u' : List (ℕ × Reply)} {k k' : List Name}
    {r r' : List (Name × Reply)}
    → Amounts cs o c m u k r
    → Amounts ds o' c' m' u' k' r'
    → Amounts (cs ++ ds) (o ++ o') (c ++ c') (m ++ m') (u ++ u') (k ++ k') (r ++ r')
Amounts-append {cs} {ds} a b = record {
  opening = collect-append opens_one cs ds ∙ ap₂ (λ x y. x ++ y) a.opening b.opening;
  closing = collect-append closes_one cs ds ∙ ap₂ (λ x y. x ++ y) a.closing b.closing;
  mapping = collect-append maps_one cs ds ∙ ap₂ (λ x y. x ++ y) a.mapping b.mapping;
  unmapping = collect-append unmap_results_one cs ds ∙ ap₂ (λ x y. x ++ y) a.unmapping b.unmapping;
  making = collect-append creates_one cs ds ∙ ap₂ (λ x y. x ++ y) a.making b.making;
  removing = collect-append unlink_results_one cs ds ∙ ap₂ (λ x y. x ++ y) a.removing b.removing;
}

-- The calls close every descriptor that they open, in the reverse order, and make one `munmap` call on
-- every address that they map and one `shm_unlink` call on every name that they create, with these
-- replies.
pub record IsTidy (munmap shm_unlink : Reply) (calls : List Call) : Type 0 where
  pub closed : closes calls ≡ reverse (opens calls)
  pub unmapped_all : unmap_results calls ≡ answered munmap (maps calls)
  pub removed_all : unlink_results calls ≡ answered shm_unlink (creates calls)

pub Amounts-IsTidy :
    {munmap shm_unlink : Reply} {calls : List Call} {o c m : List ℕ} {u : List (ℕ × Reply)}
    {k : List Name} {r : List (Name × Reply)}
    → Amounts calls o c m u k r
    → c ≡ reverse o
    → u ≡ answered munmap m
    → r ≡ answered shm_unlink k
    → IsTidy munmap shm_unlink calls
Amounts-IsTidy {munmap} {shm_unlink} a c u r = record {
  closed = a.closing ∙ c ∙ ap reverse (sym a.opening);
  unmapped_all = a.unmapping ∙ u ∙ ap (answered munmap) (sym a.mapping);
  removed_all = a.removing ∙ r ∙ ap (answered shm_unlink) (sym a.making);
}

-- Calls that acquire, and then calls that open something.
pub also_opened :
    {cs ds : List Call} {o m o' : List ℕ} {k : List Name}
    → Amounts cs o [] m [] k []
    → Amounts ds o' [] [] [] [] []
    → Amounts (cs ++ ds) (o ++ o') [] m [] k []
also_opened {m} {k} a b =
    let both = Amounts-append a b in
    record {
      opening = both.opening;
      closing = both.closing;
      mapping = both.mapping ∙ append-nil m;
      unmapping = both.unmapping;
      making = both.making ∙ append-nil k;
      removing = both.removing;
    }

-- Calls that acquire, and then calls that give it all back.
pub settled :
    {munmap shm_unlink : Reply} {cs ds : List Call} {o c m : List ℕ} {u : List (ℕ × Reply)}
    {k : List Name} {r : List (Name × Reply)}
    → Amounts cs o [] m [] k []
    → Amounts ds [] c [] u [] r
    → c ≡ reverse o
    → u ≡ answered munmap m
    → r ≡ answered shm_unlink k
    → IsTidy munmap shm_unlink (cs ++ ds)
settled {munmap} {shm_unlink} {cs} {ds} {o} {c} {m} {u} {k} {r} a b c_eq u_eq r_eq =
    Amounts-IsTidy (Amounts-append a b) (c_eq ∙ ap reverse (sym (append-nil o)))
      (u_eq ∙ ap (answered munmap) (sym (append-nil m)))
      (r_eq ∙ ap (answered shm_unlink) (sym (append-nil k)))

pub reverse-as_list : (d e : Option ℕ) → as_list e ++ as_list d ≡ reverse (as_list d ++ as_list e)
reverse-as_list none none = refl
reverse-as_list none (some e) = refl
reverse-as_list (some d) none = refl
reverse-as_list (some d) (some e) = refl

pub reverse-one : (d : Option ℕ) → as_list d ≡ reverse (as_list d)
reverse-one none = refl
reverse-one (some d) = refl

-- One descriptor that is opened and closed.
pub IsTidy-one :
    {munmap shm_unlink : Reply} {calls : List Call} (d : Option ℕ) (names : List Name)
    → Amounts calls (as_list d) (as_list d) [] [] names (answered shm_unlink names)
    → IsTidy munmap shm_unlink calls
IsTidy-one none names a = Amounts-IsTidy a refl refl refl
IsTidy-one (some d) names a = Amounts-IsTidy a refl refl refl
