-- ===== src/Wg/Config/Laws.antt =====
-- The lines of a server's config that wg-quick acts on.
use tunploy.Common.{
  ◌≡◌, refl, sym, ap, ◌∙◌, inl, inr, Bool, true, false, not, List, [], ◌∷◌, ◌++◌, append_assoc,
  append-nil, arith, ◌==◌, if◌then◌else◌, Bool-cases, select,
}
use tunploy.Common.Int.{pos, eqz}
use tunploy.Common.Text.{Text, codes, split_on}
use tunploy.Common.Show.{int_text, int_text-OneLine, OneLine, OneLine-append}
use tunploy.Wg.Net.Show.{prefix_text, prefix_text-OneLine}
use tunploy.Wg.Model.{Instance, Peer, default_mtu}
use tunploy.Wg.Key.{key_text}
use tunploy.Wg.Key.Laws.{key_text-OneLine}
use tunploy.Wg.Config.{
  field, comment_safe, host_prefix_text, server_section, peer_section, peer_sections, server_config,
}

-- A line that is neither blank nor a comment.
abbrev acts : Text → Bool
acts [] = false
acts (c ∷ line) = not (c == b'#')

-- Reading a config: its lines, without blank ones and comments.
pub effective : Text → List Text
effective text = select acts (split_on 10 text)

split_on-line :
    (line rest : Text) → OneLine line → split_on 10 (line ++ 10 ∷ rest) ≡ line ∷ split_on 10 rest
unfolding split_on
split_on-line [] rest h = refl
split_on-line (c ∷ line) rest h = ground (arith, split_on-line line rest h.1)

effective-line :
    (line rest : Text)
    → OneLine line
    → effective (line ++ 10 ∷ rest) ≡ (if acts line then line ∷ effective rest else effective rest)
unfolding effective
effective-line line rest h = rw (split_on-line line rest h)

-- `key = value`
abbrev setting : Text → Text → Text
setting key value = key ++ codes " = " ++ value

-- A text of whole lines that adds some acting lines, whatever follows.
pub record Adds (text : Text) (lines : List Text) : Type 0 where
  pub then_rest : (rest : Text) → effective (text ++ rest) ≡ lines ++ effective rest

Adds-nil : Adds [] []
Adds-nil = record { then_rest = λ rest. refl }

Adds-append : (s t : Text) (ls ms : List Text) → Adds s ls → Adds t ms → Adds (s ++ t) (ls ++ ms)
Adds-append s t ls ms h k = record {
  then_rest = λ rest. rw (
    append_assoc s t rest,
    h.then_rest (t ++ rest),
    k.then_rest rest,
    append_assoc ls ms (effective rest),
  );
}

Adds-line :
    (line t : Text) (ms : List Text)
    → OneLine line
    → acts line ≡ true
    → Adds t ms
    → Adds (line ++ 10 ∷ t) (line ∷ ms)
Adds-line line t ms h a k = record {
  then_rest = λ rest.
      rw (append_assoc line (10 ∷ t) rest, effective-line line (t ++ rest) h, a, k.then_rest rest);
}

Adds-skip :
    (line t : Text) (ms : List Text)
    → OneLine line
    → acts line ≡ false
    → Adds t ms
    → Adds (line ++ 10 ∷ t) ms
Adds-skip line t ms h a k = record {
  then_rest = λ rest.
      rw (append_assoc line (10 ∷ t) rest, effective-line line (t ++ rest) h, a, k.then_rest rest);
}

Adds-field :
    (key value : Text)
    → OneLine key
    → OneLine value
    → acts (setting key value) ≡ true
    → Adds (field key value) (setting key value ∷ [])
unfolding field
Adds-field key value hk hv a =
    Adds-line (setting key value) [] []
      (OneLine-append (key ++ codes " = ") value (OneLine-append key (codes " = ") hk (omega arith))
        hv)
      a Adds-nil

comment_safe-OneLine : (name : Text) → OneLine (comment_safe name)
comment_safe-OneLine [] = tt
comment_safe-OneLine (c ∷ name) = (ground arith, comment_safe-OneLine name)

-- The settings of a device that is on. Its name does not occur in it.
abbrev pub peer_setting : Peer → List Text
peer_setting p =
    if p.enabled
    then codes "[Peer]"
      ∷ setting (codes "PublicKey") (key_text p.public_key)
      ∷ setting (codes "PresharedKey") (key_text p.preshared_key)
      ∷ setting (codes "AllowedIPs") (host_prefix_text p.address)
      ∷ []
    else []

abbrev pub peer_settings : List Peer → List Text
peer_settings [] = []
peer_settings (p ∷ ps) = peer_setting p ++ peer_settings ps

abbrev pub settings_with : Instance → List Text → List Text
settings_with s peers =
    codes "[Interface]"
    ∷ setting (codes "PrivateKey") (key_text s.private_key)
    ∷ setting (codes "Address") (prefix_text s.address)
    ∷ setting (codes "ListenPort") (int_text s.listen_port)
    ∷ setting (codes "MTU") (int_text (if eqz s.mtu (pos 0) then pos default_mtu else s.mtu))
    ∷ peers

abbrev pub server_settings : Instance → List Peer → List Text
server_settings s ps = settings_with s (peer_settings ps)

peer_section-Adds : (p : Peer) → Adds (peer_section p) (peer_setting p)
unfolding peer_section
peer_section-Adds p = elim (Bool-cases p.enabled) [
  | inr off ↦ simp off Adds-nil
  | inl on ↦ simp on (
      Adds-skip [] _ _ tt refl (
        Adds-skip (b'#' ∷ b' ' ∷ comment_safe p.name) _ _
          (omega arith, (omega arith, comment_safe-OneLine p.name)) refl
          (Adds-line (codes "[Peer]") _ _ (omega arith) refl (
            Adds-append (field (codes "PublicKey") (key_text p.public_key)) _ (_ ∷ []) _
              (Adds-field (codes "PublicKey") (key_text p.public_key) (omega arith)
                (key_text-OneLine p.public_key) refl)
              (Adds-append (field (codes "PresharedKey") (key_text p.preshared_key)) _ (_ ∷ []) _
                (Adds-field (codes "PresharedKey") (key_text p.preshared_key) (omega arith)
                  (key_text-OneLine p.preshared_key) refl)
                (Adds-field (codes "AllowedIPs") (host_prefix_text p.address) (omega arith)
                  (prefix_text-OneLine _) refl))))))
]

peer_sections-Adds : (ps : List Peer) → Adds (peer_sections ps) (peer_settings ps)
unfolding peer_sections
peer_sections-Adds [] = Adds-nil
peer_sections-Adds (p ∷ ps) =
    Adds-append (peer_section p) (peer_sections ps) (peer_setting p) (peer_settings ps)
      (peer_section-Adds p) (peer_sections-Adds ps)

server_section-Adds :
    (s : Instance)
    → Adds (server_section s) (
        codes "[Interface]"
        ∷ setting (codes "PrivateKey") (key_text s.private_key)
        ∷ setting (codes "Address") (prefix_text s.address)
        ∷ setting (codes "ListenPort") (int_text s.listen_port)
        ∷ setting (codes "MTU") (int_text (if eqz s.mtu (pos 0) then pos default_mtu else s.mtu))
        ∷ [])
unfolding server_section
server_section-Adds s = Adds-line (codes "[Interface]") _ _ (omega arith) refl (
    Adds-append (field (codes "PrivateKey") (key_text s.private_key)) _ (_ ∷ []) _
      (Adds-field (codes "PrivateKey") _ (omega arith) (key_text-OneLine s.private_key) refl)
      (Adds-append (field (codes "Address") (prefix_text s.address)) _ (_ ∷ []) _
        (Adds-field (codes "Address") _ (omega arith) (prefix_text-OneLine s.address) refl)
        (Adds-append (field (codes "ListenPort") (int_text s.listen_port)) _ (_ ∷ []) _
          (Adds-field (codes "ListenPort") _ (omega arith) (int_text-OneLine s.listen_port) refl)
          (Adds-field (codes "MTU") _ (omega arith) (int_text-OneLine _) refl))))

-- For any server and devices, whatever their names, the lines of the server's config that are
-- neither blank nor comments are the server's four settings, and a peer section with the keys and
-- the address of each device that is on, in order, and nothing of the others.
pub effective-server_config :
    (s : Instance) (ps : List Peer) → effective (server_config s ps) ≡ server_settings s ps
unfolding server_config effective split_on
effective-server_config s ps =
    ap effective (sym (append-nil (server_config s ps)))
    ∙ (Adds-append (server_section s) (peer_sections ps) _ (peer_settings ps)
          (server_section-Adds s) (peer_sections-Adds ps)).then_rest
        []
    ∙ append-nil _
