-- ===== src/Startup/Texts.antt =====
-- The texts that are built in: the end of `lgpInitLangPack` in BalletMini/lang.c, in the order of lang.h.
use elfloader3_elfs_archive.Prelude.{Bytes, List, [], ◌∷◌}
use elfloader3_elfs_archive.Oms.Forms.{codes}

abbrev pub first_texts : List Bytes
first_texts =
    codes "Can't open file!"
    ∷ codes "Can't load AuthCode!"
    ∷ codes "Can't open history.txt!"
    ∷ codes "Config updated!"
    ∷ codes "Ref '%c' under construction!"
    ∷ codes "RF empty!"
    ∷ codes "Error!"
    ∷ codes "Stop"
    ∷ codes "Wait DNR..."
    ∷ codes "Ip connect..."
    ∷ codes "Get host by name"
    ∷ codes "DNR fault!"
    ∷ codes "DNR ok!"
    ∷ codes "Open socket..."
    ∷ codes "Connect fault..."
    ∷ codes "DNR answer..."
    ∷ codes "Connected..."
    ∷ codes "Data received..."
    ∷ codes "Sending... %uB left"
    ∷ codes "Waiting for answer..."
    ∷ codes "Remote closed!"
    ∷ codes "Local closed!"
    ∷ codes "INET process busy!"
    ∷ codes "Enable GPRS first!"
    ∷ codes "Under Construction!"
    ∷ codes "Select"
    ∷ codes "Close"
    ∷ codes "Ok"
    ∷ codes "Cancel"
    ∷ codes "Templates"
    ∷ codes "Name:"
    ∷ codes "Link:"
    ∷ codes "Text:"
    ∷ codes "Search engine:"
    ∷ codes "Find:"
    ∷ codes "Name:"
    ∷ codes "Select:"
    ∷ codes "Enter:"
    ∷ codes "Add"
    ∷ []

abbrev pub second_texts : List Bytes
second_texts =
    codes "Bookmark..."
    ∷ codes "Save"
    ∷ codes "New bookmark"
    ∷ codes "New folder"
    ∷ codes "Absent"
    ∷ codes "Options:"
    ∷ codes "Edit"
    ∷ codes "Delete"
    ∷ codes "Back"
    ∷ codes "Options"
    ∷ codes "Select bookmark:"
    ∷ codes "Search:"
    ∷ codes "Find string:"
    ∷ codes "Enter name:"
    ∷ codes "Match case"
    ∷ codes "Go"
    ∷ codes "History:"
    ∷ codes "Address"
    ∷ codes "Menu"
    ∷ codes "Go to"
    ∷ codes "Bookmarks"
    ∷ codes "History"
    ∷ codes "Settings"
    ∷ codes "Exit"
    ∷ codes "Search"
    ∷ codes "Find on page"
    ∷ codes "Save page"
    ∷ codes "Enter name!"
    ∷ codes "Enter URL!"
    ∷ codes "Folder is already exists!"
    ∷ codes "File is already exists!"
    ∷ codes "Invalid filename"
    ∷ codes "Folder is not empty!"
    ∷ codes "Yes"
    ∷ codes "No"
    ∷ codes "Root"
    ∷ codes "Clear text"
    ∷ codes "Add to templates"
    ∷ codes "en"
    ∷ []
