-- ===== src/Client/Requests.antt =====
-- FunctionalClientTest/maindialog.cpp: the messages that the client sends, byte by byte. Its window's
-- fields are arguments: the user's id, the password, the ids, the text.
use zpserver.Common.{ℕ, ◌+◌, ◌*◌, ◌%◌, ◌^◌, List, [], ◌∷◌, ◌++◌, length, bytes, Text, to_utf8}
use zpserver.Cluster.Wire.{c_string}
use zpserver.Smartlink.App.Requests.{id_bytes}

-- EXAMPLE_TRANS_MSG with the length of the data that follows, which has 16 bits
unfoldable pub trans_header : ℕ → ℕ → ℕ → List ℕ
trans_header source destin size =
    bytes 2 0x55AA ++ (bytes 4 source ++ (bytes 4 destin ++ bytes 2 size))

-- tag_app_layer_header with the type of the message
unfoldable pub app_header : ℕ → List ℕ
app_header kind = bytes 2 0 ++ (0 ∷ bytes 2 kind)

-- on_pushButton_clientLogin_clicked: the password goes as UTF-8, and its length is that in bytes.
unfoldable pub login_request : ℕ → Text → List ℕ
login_request user password =
    let src_password = to_utf8 password in
    trans_header 0xffffffff 1 ((10 + length src_password) % 2 ^ 16)
    ++ (app_header 0x0001 ++ (bytes 4 user ++ (src_password ++ 0 ∷ [])))

-- on_pushButton_box_upload_uid_clicked. The array that the code makes holds up to 16382 ids; more are
-- written past its end.
unfoldable pub upload_request : ℕ → List ℕ → List ℕ
upload_request user ids =
    trans_header user 1 ((7 + 4 * length ids) % 2 ^ 16)
    ++ (app_header 0x1003 ++ (bytes 2 (length ids) ++ id_bytes ids))

-- on_pushButton_box_download_uid_clicked
unfoldable pub download_request : ℕ → List ℕ
download_request user = trans_header user 1 5 ++ app_header 0x1004

-- on_pushButton_clientLogout_clicked
unfoldable pub logout_request : ℕ → List ℕ
logout_request user = trans_header user 1 6 ++ (app_header 0x1002 ++ 0 ∷ [])

-- on_pushButton_sendToClient_clicked: QByteArray(const char *) takes the text up to a NUL.
unfoldable pub text_message : ℕ → ℕ → Text → List ℕ
unfolding c_string
text_message user other text =
    let msg = c_string (to_utf8 text) in trans_header user other (length msg % 2 ^ 16) ++ msg

-- timerEvent: a heart beat, with the low half of the time
unfoldable pub heart_beating : ℕ → List ℕ
heart_beating now = bytes 2 0xBEBE ++ (bytes 4 0 ++ bytes 2 (now % 2 ^ 16))
