-- ===== src/Utils/Generator/Made.antt =====
-- What the processes of cpp/demo.cpp make of a parameter.
use mathlib.Core.Option.{some-injective}
use c_workspace.Common.{
  ◌≡◌, ◌⊎◌, refl, sym, ap, ◌∙◌, inl, inr, Bool, true, false, if◌then◌else◌, Option, none, some, [],
  arith,
}
use c_workspace.Utils.Text.{Text, codes, same}
use c_workspace.Utils.Text.Search.{same_iff}
use c_workspace.Utils.Dispatcher.{Process, lamda_process}
use c_workspace.Utils.Dispatcher.Registry.{IsChosen, accepts}
use c_workspace.Utils.Generator.{
  ProcessParam, ProcessReturn, is_username, username, is_pwd, pwd, is_ip, ip,
}

-- What is made of a parameter.
abbrev pub made : ProcessParam → Option ProcessReturn
made x =
    if is_username x
    then username x
    else if is_pwd x
    then pwd x
    else if is_ip x
    then ip x
    else some ([], [])

abbrev user_process : Process ProcessReturn ProcessParam
user_process = lamda_process (codes "username") is_username username

abbrev pub pwd_process : Process ProcessReturn ProcessParam
pwd_process = lamda_process (codes "pwd") is_pwd pwd

abbrev pub ip_process : Process ProcessReturn ProcessParam
ip_process = lamda_process (codes "ip") is_ip ip

-- The processes by name.
abbrev pub registered : Text → Option (Process ProcessReturn ProcessParam)
registered name =
    if same (codes "username") name
    then some user_process
    else if same (codes "pwd") name
    then some pwd_process
    else if same (codes "ip") name
    then some ip_process
    else none

abbrev pub with_new :
    Bool
    → Process ProcessReturn ProcessParam
    → Option (Process ProcessReturn ProcessParam)
    → Option (Process ProcessReturn ProcessParam)
with_new b p o = elim o [ some q ↦ some q | none ↦ if b then some p else none ]

pub in_turn :
    (a b c : Bool)
    → with_new c ip_process (with_new b pwd_process (if a then some user_process else none)) ≡ (
        if a
        then some user_process
        else if b
        then some pwd_process
        else if c
        then some ip_process
        else none)
in_turn true b c = refl
in_turn false true c = refl
in_turn false false true = refl
in_turn false false false = refl

one_of :
    (a b c : Bool) (p : Process ProcessReturn ProcessParam)
    → (if a
        then some user_process
        else if b
        then some pwd_process
        else if c
        then some ip_process
        else none)
      ≡ some p
    → (user_process ≡ p) ⊎ (pwd_process ≡ p) ⊎ (ip_process ≡ p)
one_of true b c p e = inl (some-injective _ _ e)
one_of false true c p e = inr (inl (some-injective _ _ e))
one_of false false true p e = inr (inr (some-injective _ _ e))
one_of false false false p e = absurd (ground arith)

made-username : (x : ProcessParam) → is_username x ≡ true → username x ≡ made x
made-username x b = rw b refl

made-pwd : (x : ProcessParam) → is_pwd x ≡ true → pwd x ≡ made x
made-pwd x b =
    let e = (same_iff x.0 (codes "pwd")).0 b in
    let c : is_username x ≡ false = ap (λ n. same n (codes "username")) e in rw (c, b) refl

made-ip : (x : ProcessParam) → is_ip x ≡ true → ip x ≡ made x
made-ip x b =
    let e = (same_iff x.0 (codes "ip")).0 b in
    let c : is_username x ≡ false = ap (λ n. same n (codes "username")) e in
    let d : is_pwd x ≡ false = ap (λ n. same n (codes "pwd")) e in rw (c, d, b) refl

made_nothing :
    (x : ProcessParam)
    → is_username x ≡ false
    → is_pwd x ≡ false
    → is_ip x ≡ false
    → some ([], []) ≡ made x
made_nothing x b c d = rw (b, c, d) refl

-- A result that is chosen is the one.
pub chosen_made :
    (x : ProcessParam) (r : Option ProcessReturn)
    → IsChosen (λ x. some ([], [])) registered x r
    → r ≡ made x
chosen_made x r (inl (name, p, e, a, f)) =
    f
    ∙ elim (one_of (same (codes "username") name) (same (codes "pwd") name) (same (codes "ip") name)
        p e) [
          | inl g ↦ ap (λ q. q.proceed x) (sym g) ∙ made-username x (ap (λ q. accepts q x) g ∙ a)
          | inr (inl g) ↦ ap (λ q. q.proceed x) (sym g) ∙ made-pwd x (ap (λ q. accepts q x) g ∙ a)
          | inr (inr g) ↦ ap (λ q. q.proceed x) (sym g) ∙ made-ip x (ap (λ q. accepts q x) g ∙ a)
        ]
chosen_made x r (inr (k, f)) =
    f
    ∙ made_nothing x (k (codes "username") user_process refl) (k (codes "pwd") pwd_process refl)
        (k (codes "ip") ip_process refl)
