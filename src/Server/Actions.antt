-- ===== src/Server/Actions.antt =====
-- master/socket_server.c, dispatch_request: the chain of comparisons of the action's name.
use ovpn_manager.Prelude.{Option, none, some, if◌then◌else◌, Bytes, codes, eqb}

pub data Action : Type 0 where
  ping status apply_config kick stop_config gen_client_cert get_client_config : Action
  change_client_password revoke_client_cert generate_ca_cert sign_server_cert : Action
  get_ca_cert delete_ca_cert update_admin_login : Action

unfoldable pub action_of : Bytes → Option Action
action_of s =
    if eqb s (codes "ping")
    then some ping
    else if eqb s (codes "status")
    then some status
    else if eqb s (codes "apply_config")
    then some apply_config
    else if eqb s (codes "kick_client")
    then some kick
    else if eqb s (codes "stop_config")
    then some stop_config
    else if eqb s (codes "gen_client_cert")
    then some gen_client_cert
    else if eqb s (codes "get_client_config")
    then some get_client_config
    else if eqb s (codes "change_client_password")
    then some change_client_password
    else if eqb s (codes "revoke_client_cert")
    then some revoke_client_cert
    else if eqb s (codes "generate_ca_cert")
    then some generate_ca_cert
    else if eqb s (codes "sign_server_cert")
    then some sign_server_cert
    else if eqb s (codes "get_ca_cert")
    then some get_ca_cert
    else if eqb s (codes "delete_ca_cert")
    then some delete_ca_cert
    else if eqb s (codes "update_admin_login")
    then some update_admin_login
    else none
