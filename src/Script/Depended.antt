-- ===== src/Script/Depended.antt =====
-- `depend` keeps to the scope of a script, and its targets are packages.
use buildsyspp.Shared.{
  ℕ, ◌<◌, inl, inr, false, Option, none, some, List, [], ◌∷◌, ◌++◌, Text, Bool-cases, ◌||◌, text,
  text_eq,
}
use buildsyspp.Host.{Host}
use buildsyspp.Effects.{modify, custom}
use buildsyspp.Effects.Keeps.{Keeps, Keeps-bind, Keeps-pure, kept}
use buildsyspp.Effects.Leads.{
  Leads, Leads-pure, Leads-throw, Leads-from, Leads-if, Leads-weaken, Leads-keeps, Keeps-leads,
  Leads-bind,
}
use buildsyspp.Session.{Session, Do, find_name_space}
use buildsyspp.Session.Names.{with_name_space-Exists}
use buildsyspp.Script.Found.{IsReady, depend-Leads, depend_all-Leads}
use buildsyspp.Script.Scope.{Registry, Scope, Keeps-find_name_space}
use buildsyspp.Lua.{
  Value, nil, boolean, number, string, table, pointer, other, Table, end_table, entry, arg,
}
use buildsyspp.Script.{expect}
use buildsyspp.Script.Depend.{
  Wanted, names_in, names_of, depend_entry, depend_table, depend_named, li_depend, depend_on,
  nothing_wanted,
}

module _ (h : Host) (z : Registry) (q : ℕ) (made : q < z.count) where
  abbrev HasScope : Session h → Type 0
  HasScope = Scope h z q

  abbrev Ready : Option Text → Session h → Type 0
  Ready = IsReady h z q made

  -- The parts of `depend` that only read the table.
  names_in-Keeps :
      (I : Session h → Type 0) (t : Table) (found : List Text) → Keeps ⊥ I (names_in h q t found)
  unfolding names_in
  names_in-Keeps I end_table found = search kept
  names_in-Keeps I (entry k v rest) found =
      Keeps-bind _ _ (search kept) (λ name. names_in-Keeps I rest (found ++ name ∷ []))

  names_of-Keeps :
      (I : Session h → Type 0) (v : Value) (found : List Text) → Keeps ⊥ I (names_of h q v found)
  unfolding names_of
  names_of-Keeps I nil found = search kept
  names_of-Keeps I (boolean b) found = search kept
  names_of-Keeps I (number shown level) found = search kept
  names_of-Keeps I (string s) found = search kept
  names_of-Keeps I (table t) found = names_in-Keeps I t found
  names_of-Keeps I (pointer p) found = search kept
  names_of-Keeps I other found = search kept

  abbrev Wants : Wanted → Session h → Type 0
  Wants w = Ready w.ns

  forget : (ns : Option Text) (s : Session h) → Ready ns s → HasScope s
  forget ns s r = r.0

  in_namespace :
      (n : Text) (ns : Option Text)
      → Leads (Ready ns) HasScope (λ _. Ready (some n)) (find_name_space h n)
  unfolding find_name_space modify
  in_namespace n ns = record {
    leads = λ s r. (
      (Keeps-find_name_space h z q {E = ⊥} n).after s r.0,
      with_name_space-Exists n s.namespaces,
    );
  }

  abbrev LeadsOn : {A : Type 0} → Option Text → (A → Option Text) → Do h A → Type 0
  LeadsOn ns next m = Leads (Ready ns) HasScope (λ a. Ready (next a)) m

  read_value :
      {A : Type 0} (ns : Option Text) (o : Option A) (message : Text)
      → Leads (Ready ns) HasScope (λ _. Ready ns) (expect h o message)
  read_value ns o message = Leads-from _ _ _ o (custom message) (forget ns) (λ a s r. r)

  depend_entry-Leads :
      (key : Text) (v : Value) (w : Wanted)
      → Leads (Wants w) HasScope Wants (depend_entry h q key v w)
  unfolding depend_entry
  depend_entry-Leads key v w =
      elim (Bool-cases (text_eq key (text "package") || text_eq key (text "packages"))) [
        | inl e ↦ rw e (
            Leads-bind _ _ (λ _. Wants w) _ _ _
              (Leads-keeps _ _ _ (forget w.ns) (names_of-Keeps _ v w.package_names))
              (λ found. Leads-pure _ _ _ _ (λ s r. r)))
        | inr e ↦ elim (Bool-cases (text_eq key (text "namespace"))) [
          | inl k ↦
              rw (e, k)
                (Leads-bind _ _ (λ _. Wants w) _ _ _ (read_value w.ns _ _)
                  (λ n.
                    Leads-bind _ _ (λ _. Ready (some n)) _ _ _ (in_namespace n w.ns)
                      (λ _. Leads-pure _ _ _ _ (λ s r. r))))
          | inr k ↦ elim (Bool-cases (text_eq key (text "locally"))) [
            | inl l ↦
                rw (e, k, l)
                  (Leads-bind _ _ (λ _. Wants w) _ _ _ (read_value w.ns _ _)
                    (λ b. Leads-pure _ _ _ _ (λ s r. r)))
            | inr l ↦ rw (e, k, l) (Leads-throw _ _ _ _ (forget w.ns))
          ]
        ]
      ]

  depend_table-Leads :
      (t : Table) (w : Wanted) → Leads (Wants w) HasScope Wants (depend_table h q t w)
  unfolding depend_table
  depend_table-Leads end_table w = Leads-pure _ _ _ w (λ s r. r)
  depend_table-Leads (entry k v rest) w =
      Leads-bind _ _ (λ _. Wants w) _ _ _ (read_value w.ns _ _)
        (λ key.
          Leads-bind _ _ Wants _ _ _ (depend_entry-Leads key v w)
            (λ next. depend_table-Leads rest next))

  depend_named-Leads :
      (name : Text) (args : List Value)
      → Leads (Ready none) HasScope (λ _. HasScope) (depend_named h q name args)
  unfolding depend_named
  depend_named-Leads name args =
      Leads-if _ _ _ _ _ _
        (Leads-bind _ _ (λ _. Ready none) _ _ _ (read_value none _ _)
          (λ n.
            Leads-bind _ _ (λ _. Ready (some n)) _ _ _ (in_namespace n none)
              (λ _.
                Leads-weaken _ _ _ _ _ _ (λ s r. r) (λ _ s r. r.0)
                  (depend-Leads h z q made (some n) false name))))
        (Leads-weaken _ _ _ _ _ _ (λ s r. r) (λ _ s r. r.0)
          (depend-Leads h z q made none false name))

  depend_on-Leads :
      (v : Value) (args : List Value)
      → Leads (Ready none) HasScope (λ _. HasScope) (depend_on h q v args)
  unfolding depend_on
  depend_on-Leads nil args = Leads-throw _ _ _ _ (forget none)
  depend_on-Leads (boolean b) args = Leads-throw _ _ _ _ (forget none)
  depend_on-Leads (number shown level) args = Leads-throw _ _ _ _ (forget none)
  depend_on-Leads (string name) args = depend_named-Leads name args
  depend_on-Leads (table t) args =
      Leads-bind _ _ Wants _ _ _ (depend_table-Leads t nothing_wanted) (λ w.
        Leads-weaken _ _ _ _ _ _ (λ s r. r) (λ _ s r. r.0)
          (depend_all-Leads h z q made w.ns w.locally w.package_names))
  depend_on-Leads (pointer p) args = Leads-throw _ _ _ _ (forget none)
  depend_on-Leads other args = Leads-throw _ _ _ _ (forget none)

  pub li_depend-Keeps : {E : Type 0} (args : List Value) → Keeps E HasScope (li_depend h q args)
  unfolding li_depend
  li_depend-Keeps args = Keeps-bind _ _ (search kept) (λ _.
      Keeps-bind _ _
        (Keeps-leads HasScope _ (
          Leads-weaken _ _ _ (λ _. HasScope) _ _ (λ s i. (i, tt)) (λ _ s r. r)
            (depend_on-Leads (arg 1 args) args)))
        (λ _. Keeps-pure []))
