-- ===== src/Interceptor/Scan/Calls.antt =====
-- What the scan of a call reports: the call of every dangerous member that its callee may be.
use mathlib.Core.Option.{some-injective}
use qwed_a2a.Prelude.{
  ◌≡◌, ◌↔◌, inl, inr, refl, sym, subst, true, false, ◌&&◌, Option, none, some, List, [], ◌∷◌, arith,
  if◌then◌else◌, ◌==◌, ==_iff, contains, Bool-cases,
}
use qwed_a2a.Prelude.Text.{Text, text-Eq}
use qwed_a2a.Dict.{Dict}
use qwed_a2a.Interceptor.Logic.{sorted}
use qwed_a2a.Interceptor.Ast.{Expr, named, attribute, sequence, text_literal, other_expr}
use qwed_a2a.Interceptor.Bindings.{
  Binding, binding-Eq, Tables, Bindings, get_list, values_in, propagate,
}
use qwed_a2a.Interceptor.Bindings.Closure.{Bound, propagate_iff}
use qwed_a2a.Interceptor.Scan.{
  collect, with_attribute, resolve, call_threat, is_getattr, any_getattr, is_builtin_call,
  scan_ast_call, literal, getattr_threat, scan_getattr_call,
}
use qwed_a2a.Interceptor.Scan.Reported.{
  reports, reports-append, reports-sorted, reports-collect_iff, any_getattr_iff,
}

-- What an expression may denote when names are bound along assignments.
pub data Denotes (t : Tables) (b : Bindings) : Expr → Binding → Type 0 where
  by_name : (source : Text) (x : Binding) → Bound t b source x → Denotes t b (named source) x
  by_attribute :
      (source attr module_name : Text)
      → Bound t b source (module_name, none)
      → Denotes t b (attribute (named source) attr) (module_name, some attr)

-- The attribute that `getattr` takes is chosen at run time, or a dangerous member of the module.
abbrev pub Reaches : Tables → Option Text → Text → Type 0
Reaches t none module_name = Unit
Reaches t (some attr) module_name = contains attr (get_list module_name t.receivers) ≡ true

-- A call is dangerous when it names a dangerous builtin, when its callee may be a dangerous member, or
-- when its callee may be `getattr` and takes a dangerous attribute of a dangerous module.
pub data Dangerous (t : Tables) (b : Bindings) : Expr → List Expr → Type 0 where
  builtin_call :
      (func : Expr) (args : List Expr) → is_builtin_call func ≡ true → Dangerous t b func args
  member_call :
      (func : Expr) (args : List Expr) (module_name member : Text)
      → Denotes t b func (module_name, some member)
      → contains member (get_list module_name t.receivers) ≡ true
      → Dangerous t b func args
  getattr_call :
      (func receiver attr : Expr) (args : List Expr) (x : Binding) (module_name : Text)
      → Denotes t b func x
      → is_getattr x ≡ true
      → Denotes t b receiver (module_name, none)
      → Reaches t (literal attr) module_name
      → Dangerous t b func (receiver ∷ (attr ∷ args))

contains-with_attribute :
    (attr m k : Text) (xs : List Binding)
    → contains (m, some k) (with_attribute attr xs) ≡ (contains (m, none) xs && attr == k)
unfolding with_attribute contains
contains-with_attribute attr m k [] = refl
contains-with_attribute attr m k ((n, none) ∷ xs) =
    ground (arith, contains-with_attribute attr m k xs)
contains-with_attribute attr m k ((n, some j) ∷ xs) =
    ground (arith, contains-with_attribute attr m k xs)

with_attribute-no_module :
    (attr m : Text) (xs : List Binding) → contains (m, none) (with_attribute attr xs) ≡ false
unfolding with_attribute contains
with_attribute-no_module attr m [] = refl
with_attribute-no_module attr m ((n, none) ∷ xs) =
    ground (arith, with_attribute-no_module attr m xs)
with_attribute-no_module attr m ((n, some j) ∷ xs) = with_attribute-no_module attr m xs

Denotes-attribute :
    (t : Tables) (b : Bindings) (source attr m k : Text)
    → Denotes t b (attribute (named source) attr) (m, some k)
    → Bound t b source (m, none) × (attr ≡ k)
Denotes-attribute t b source attr m k (by_attribute s a n bound) = (bound, refl)

-- A threat of a member is its being dangerous.
call_threat_iff :
    (t : Tables) (m : Text) (member : Option Text)
    → (reports (call_threat t (m, member)) ≡ true)
      ↔ ((k : Text) × (member ≡ some k) × (contains k (get_list m t.receivers) ≡ true))
unfolding call_threat
call_threat_iff t m none = ((λ h. absurd (cc)), (λ s. absurd (ground (arith, s.1))))
call_threat_iff t m (some k) = elim (Bool-cases (contains k (get_list m t.receivers))) [
  | inl on ↦ rw on ((λ h. (k, refl, on)), (λ s. refl))
  | inr off ↦ rw off (
    (λ h. absurd (cc)),
    (λ s. absurd (
        ground (
          arith,
          subst (λ j. contains j (get_list m t.receivers) ≡ true) (sym (some-injective k s.0 s.1))
              s.2,
        ))),
  )
]

getattr_threat_iff :
    (t : Tables) (attr : Option Text) (m : Text) (member : Option Text)
    → (reports (getattr_threat t attr (m, member)) ≡ true) ↔ ((member ≡ none) × Reaches t attr m)
unfolding getattr_threat
getattr_threat_iff t none m none = ((λ h. (refl, tt)), (λ s. refl))
getattr_threat_iff t none m (some k) = ((λ h. absurd (cc)), (λ s. absurd (ground (arith, s.0))))
getattr_threat_iff t (some a) m none = elim (Bool-cases (contains a (get_list m t.receivers))) [
  | inl on ↦ rw on ((λ h. (refl, refl)), (λ s. refl))
  | inr off ↦ rw off ((λ h. absurd (cc)), (λ s. absurd (ground (arith, s.1))))
]
getattr_threat_iff t (some a) m (some k) = ((λ h. absurd (cc)), (λ s. absurd (ground (arith, s.0))))

module _ (t : Tables) (b : Bindings) (result : Dict Text (List Binding))
    (runs : propagate t b ≡ some result) where
  abbrev pub held : Text → List Binding
  held = values_in t result

  -- What an expression resolves to is what it may denote.
  resolve_iff : (e : Expr) (x : Binding) → (contains x (resolve held e) ≡ true) ↔ Denotes t b e x
  unfolding resolve contains
  resolve_iff (named source) x =
      let (to, from) = propagate_iff t b result source x runs in
      ((λ h. by_name source x (to h)), (λ d. elim d [ by_name s y bound ↦ from bound ]))
  resolve_iff (attribute (named source) attr) (m, none) = (
    (λ h. absurd (ground (arith, with_attribute-no_module attr m (held source)))),
    (λ d. elim d [ ]),
  )
  resolve_iff (attribute (named source) attr) (m, some k) =
      let (to, from) = propagate_iff t b result source (m, none) runs in
      let found = contains-with_attribute attr m k (held source) in
      (
        (λ h.
            subst (λ j. Denotes t b (attribute (named source) attr) (m, some j))
              ((==_iff attr k).0 (ground arith)) (by_attribute source attr m (to (ground arith)))),
        (λ d.
            let (bound, same) = Denotes-attribute t b source attr m k d in
            ground (arith, found, from bound, ==_iff attr k)),
      )
  resolve_iff (attribute (attribute e a) attr) x = ((λ h. absurd (cc)), (λ d. elim d [ ]))
  resolve_iff (attribute (sequence es) attr) x = ((λ h. absurd (cc)), (λ d. elim d [ ]))
  resolve_iff (attribute (text_literal s) attr) x = ((λ h. absurd (cc)), (λ d. elim d [ ]))
  resolve_iff (attribute other_expr attr) x = ((λ h. absurd (cc)), (λ d. elim d [ ]))
  resolve_iff (sequence es) x = ((λ h. absurd (cc)), (λ d. elim d [ ]))
  resolve_iff (text_literal s) x = ((λ h. absurd (cc)), (λ d. elim d [ ]))
  resolve_iff other_expr x = ((λ h. absurd (cc)), (λ d. elim d [ ]))

  -- The members that a callee may be.
  member_threats_iff :
      (func : Expr)
      → (reports (sorted (collect (call_threat t) (resolve held func))) ≡ true) ↔ (
          (m k : Text) × Denotes t b func (m, some k)
          × (contains k (get_list m t.receivers) ≡ true))
  member_threats_iff func =
      let xs = resolve held func in
      let (to, from) = reports-collect_iff (call_threat t) xs in
      rw (reports-sorted (collect (call_threat t) xs)) (
        (λ h.
            let ((m, member), c, reported) = to h in
            let (k, same, dangerous) = (call_threat_iff t m member).0 reported in
            (
              m,
              k,
              subst (λ j. Denotes t b func (m, j)) same ((resolve_iff func (m, member)).0 c),
              dangerous,
            )),
        (λ (m, k, d, dangerous). from (
          (m, some k),
          (resolve_iff func (m, some k)).1 d,
          (call_threat_iff t m (some k)).1 (k, refl, dangerous),
        )),
      )

  getattr_threats_iff :
      (receiver attr : Expr) (args : List Expr)
      → (reports (scan_getattr_call t held (receiver ∷ (attr ∷ args))) ≡ true)
        ↔ ((m : Text) × Denotes t b receiver (m, none) × Reaches t (literal attr) m)
  unfolding scan_getattr_call
  getattr_threats_iff receiver attr args =
      let xs = resolve held receiver in
      let f = getattr_threat t (literal attr) in
      let (to, from) = reports-collect_iff f xs in
      rw (reports-sorted (collect f xs)) (
        (λ h.
            let ((m, member), c, reported) = to h in
            let (same, reaches) = (getattr_threat_iff t (literal attr) m member).0 reported in
            (
              m,
              subst (λ j. Denotes t b receiver (m, j)) same
                  ((resolve_iff receiver (m, member)).0 c),
              reaches,
            )),
        (λ (m, d, reaches). from (
          (m, none),
          (resolve_iff receiver (m, none)).1 d,
          (getattr_threat_iff t (literal attr) m none).1 (refl, reaches),
        )),
      )

  any_getattr_lem :
      (func : Expr)
      → (any_getattr (resolve held func) ≡ true)
        ↔ ((x : Binding) × Denotes t b func x × (is_getattr x ≡ true))
  any_getattr_lem func =
      let (to, from) = any_getattr_iff (resolve held func) in
      (
        (λ h. let (x, c, g) = to h in (x, (resolve_iff func x).0 c, g)),
        (λ (x, d, g). from (x, (resolve_iff func x).1 d, g)),
      )

  -- The threats by `getattr`.
  abbrev by_getattr : Expr → List Expr → List Text
  by_getattr func args =
      if any_getattr (resolve held func) then scan_getattr_call t held args else []

  scan_getattr_call_sound :
      (func : Expr) (args : List Expr)
      → ((x : Binding) × Denotes t b func x × (is_getattr x ≡ true))
      → reports (scan_getattr_call t held args) ≡ true
      → Dangerous t b func args
  unfolding scan_getattr_call
  scan_getattr_call_sound func [] s h = absurd (cc)
  scan_getattr_call_sound func (receiver ∷ []) s h = absurd (cc)
  scan_getattr_call_sound func (receiver ∷ (attr ∷ args)) (x, d, g) h =
      let (m, d', reaches) = (getattr_threats_iff receiver attr args).0 h in
      getattr_call func receiver attr args x m d g d' reaches

  by_getattr_sound :
      (func : Expr) (args : List Expr)
      → reports (by_getattr func args) ≡ true
      → Dangerous t b func args
  by_getattr_sound func args = elim (Bool-cases (any_getattr (resolve held func))) [
    | inr off ↦ rw off (λ h. absurd (cc))
    | inl on ↦ rw on (λ h. scan_getattr_call_sound func args ((any_getattr_lem func).0 on) h)
  ]

  scan_ast_call_sound :
      (func : Expr) (args : List Expr)
      → reports (scan_ast_call t held func args) ≡ true
      → Dangerous t b func args
  unfolding scan_ast_call
  scan_ast_call_sound func args = elim (Bool-cases (is_builtin_call func)) [
    | inl on ↦ rw on (λ h. builtin_call func args on)
    | inr off ↦
        let members = sorted (collect (call_threat t) (resolve held func)) in
        rw (off, reports-append members (by_getattr func args))
          (λ h. elim (Bool-cases (reports members)) [
            | inl reported ↦
                let (m, k, d, dangerous) = (member_threats_iff func).0 reported in
                member_call func args m k d dangerous
            | inr quiet ↦ by_getattr_sound func args (ground arith)
          ])
  ]

  scan_ast_call_complete :
      (func : Expr) (args : List Expr)
      → Dangerous t b func args
      → reports (scan_ast_call t held func args) ≡ true
  unfolding scan_ast_call
  scan_ast_call_complete func args (builtin_call _ _ on) = rw on refl
  scan_ast_call_complete func args (member_call _ _ m k d dangerous) =
      elim (Bool-cases (is_builtin_call func)) [
        | inl on ↦ rw on refl
        | inr off ↦
            let members = sorted (collect (call_threat t) (resolve held func)) in
            rw
              (
                off,
                reports-append members (by_getattr func args),
                (member_threats_iff func).1 (m, k, d, dangerous),
              )
              refl
      ]
  scan_ast_call_complete func (receiver ∷ (attr ∷ args)) (getattr_call _ _ _ _ x m d g d' reaches) =
      elim (Bool-cases (is_builtin_call func)) [
        | inl on ↦ rw on refl
        | inr off ↦
            let members = sorted (collect (call_threat t) (resolve held func)) in
            rw
              (
                off,
                reports-append members (by_getattr func (receiver ∷ (attr ∷ args))),
                (any_getattr_lem func).1 (x, d, g),
              )
              (ground (arith, (getattr_threats_iff receiver attr args).1 (m, d', reaches)))
      ]

  -- When propagate has returned, the scan of a call reports something exactly if the call is
  -- dangerous: it names a dangerous builtin, or its callee may denote a dangerous member, or its
  -- callee may denote getattr and it takes a dangerous attribute, or one chosen at run time, of a
  -- module that its receiver may denote.
  pub scan_ast_call_iff :
      (func : Expr) (args : List Expr)
      → (reports (scan_ast_call t held func args) ≡ true) ↔ Dangerous t b func args
  scan_ast_call_iff func args = (scan_ast_call_sound func args, scan_ast_call_complete func args)
