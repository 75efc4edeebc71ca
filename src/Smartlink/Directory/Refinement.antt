-- ===== src/Smartlink/Directory/Refinement.antt =====
-- The slots of st_client_table keep to the directory.
use zpserver.Common.{◌≡◌, refl, ap, ◌∙◌, List, [], ◌∷◌, nat_key}
use zpserver.Smartlink.Table.{
  Table, on_new_client_connected, on_client_encrypted, kick_dead_clients,
}
use zpserver.Smartlink.Table.Clients.{
  IsValid, Call, opened, encrypted, data_recieved, identified, disconnected, timer, serve,
  serve_all, serve-IsValid,
}
use zpserver.Smartlink.Directory.{step, steps, directory}
use zpserver.Smartlink.Directory.Naming.{identify_step}
use zpserver.Smartlink.Directory.Leaving.{disconnect_step}
use zpserver.Smartlink.Directory.Tables.{
  IsDirectory-directory, node_of_socket-IsDirectory, kick_dead_keeps, data_recieved_step,
}

serve-step : (t : Table) (c : Call) → IsValid t → directory (serve t c) ≡ step (directory t) c
unfolding serve step on_new_client_connected on_client_encrypted kick_dead_clients
serve-step t (opened sock now) v =
    IsDirectory-directory _ _ (node_of_socket-IsDirectory sock now t v)
serve-step t (encrypted sock now) v =
    IsDirectory-directory _ _ (node_of_socket-IsDirectory sock now t v)
serve-step t (data_recieved sock block now) v = data_recieved_step sock block now t v
serve-step t (identified sock id) v = identify_step sock id t v
serve-step t (disconnected sock) v = disconnect_step sock t v
serve-step t (timer now) v = kick_dead_keeps now t.sock2node t

-- From valid tables, any sequence of connections, data, first ids, disconnections and timers does to
-- who is connected, to the id of each connection and to the connection of each id just what the
-- directory says.
pub serve_all_refines :
    (t : Table) (cs : List Call) → IsValid t → directory (serve_all t cs) ≡ steps (directory t) cs
unfolding serve_all steps
serve_all_refines t [] v = refl
serve_all_refines t (c ∷ cs) v =
    serve_all_refines (serve t c) cs (serve-IsValid t c v) ∙ ap (λ d. steps d cs) (serve-step t c v)
